-- ===== src/Tests/Images.antt =====
-- A filter on a small image.
use computer_systems_labs.Base.{ℕ, ◌+◌, ◌*◌, ◌<◌, ◌≡◌, refl, arith, some, []}
use computer_systems_labs.Image.{Image}
use computer_systems_labs.Image.Filter.{Filter, get, read_filter}
use computer_systems_labs.Image.Filter.Printed.{print_filter, read_filter-print_filter}
use computer_systems_labs.Image.Apply.{apply_filter, apply_by_one}
use computer_systems_labs.Image.Apply.Unrolled.{apply_filter-even}
use computer_systems_labs.Image.Apply.Written.{Filtered, apply_filter-Filtered}

-- avg.filter
abbrev average : Filter
average = record { divisor = 9; dim = 3; data_at = λ _. 1 }

abbrev slope : ℕ → Image
slope width = record { width = width; height = 3; color = λ p r c. 90 * c + r }

abbrev blank : Image
blank = record { width = 0; height = 0; color = λ p r c. 7 }

apply_filter-even_example :
    apply_filter average (slope 4) blank ≡ apply_by_one average (slope 4) blank
apply_filter-even_example = apply_filter-even average (slope 4) blank refl

apply_filter-Filtered_example :
    (res : Image) × (apply_filter average (slope 3) blank ≡ some res)
    × Filtered average (slope 3) 1 2 3 blank res
apply_filter-Filtered_example =
    apply_filter-Filtered average (slope 3) blank (omega arith) (omega arith)

read_filter-print_filter_example :
    (g : Filter) × (read_filter (λ _. 5) (print_filter average []) ≡ some g)
    × (g.dim ≡ 3)
    × (g.divisor ≡ 9)
    × ((r c : ℕ) → r < 3 → c < 3 → get g r c ≡ get average r c)
read_filter-print_filter_example = read_filter-print_filter average (λ _. 5) []
