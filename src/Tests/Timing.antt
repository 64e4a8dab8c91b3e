-- ===== src/Tests/Timing.antt =====
-- The K-best scheme and the timed run of a trace on concrete inputs.
use computer_systems_labs.Base.{
  true, ℕ, ◌+◌, ◌-◌, ◌≡◌, ◌≤◌, ◌<◌, ◌⊎◌, refl, arith, Bool, false, some, List, [], ◌∷◌, ltb,
}
use computer_systems_labs.Malloc.Memlib.{max_heap}
use computer_systems_labs.Sampler.{
  Samples, init_sampler, swap_down, sift, add_sample, has_converged, fcyc_loop, fcyc,
}
use computer_systems_labs.Sampler.Laws.{IsKept, keep, insert, replace, add_sample-IsKept}
use computer_systems_labs.Sampler.Smallest.{IsOrder}
use computer_systems_labs.Sampler.Least.{sampled, settled, fcyc_lem}
use computer_systems_labs.Driver.Valid.{alloc, free, TraceOp}
use computer_systems_labs.Driver.Utilisation.{Usage}

abbrev gt : ℕ → ℕ → Bool
gt a b = ltb b a

gt-IsOrder : IsOrder gt
gt-IsOrder = record {
  le_trans = λ a b c h k. ground (arith, h, k);
  le_total = λ a b h. ground (arith, h);
}

-- The samples 17, 16, 15 and so on, which are never close.
abbrev falling : ℕ → ℕ
falling i = 17 - i

abbrev after : ℕ → Samples ℕ
after = sampled gt (λ a b. false) gt-IsOrder 3 (omega arith) falling 0 5

abbrev close_after : ℕ → Bool
close_after = settled gt (λ a b. false) gt-IsOrder 3 (omega arith) falling 0 5

fcyc_example :
    (n : ℕ) × (fcyc gt (λ a b. false) 3 5 falling 0 ≡ some ((after n).values 0))
    × (0 < n)
    × ((n ≤ 5) ⊎ (n ≡ 1))
    × ((close_after n ≡ true) ⊎ (5 ≤ n))
    × ((m : ℕ) → 0 < m → m < n → close_after m ≡ false)
    × ((i : ℕ) × (i < n) × ((after n).values 0 ≡ falling i))
    × ((j : ℕ) → j < n → gt ((after n).values 0) (falling j) ≡ false)
fcyc_example = fcyc_lem gt (λ a b. false) gt-IsOrder 3 (omega arith) falling 0 5

fcyc_of_falling : fcyc gt (λ a b. false) 3 5 falling 0 ≡ some 13
unfolding fcyc fcyc_loop init_sampler add_sample sift swap_down has_converged
fcyc_of_falling = refl

abbrev two_samples : Samples ℕ
two_samples = record { values = λ i. 5 + i; samplecount = 2 }

two-IsKept : IsKept 2 two_samples (6 ∷ 5 ∷ [])
two-IsKept = record { held = (refl, (refl, tt)); counted = refl }

add_sample-IsKept_example : IsKept 2 (add_sample gt 2 4 two_samples) (keep gt 2 4 (6 ∷ 5 ∷ []))
add_sample-IsKept_example =
    add_sample-IsKept gt 2 4 two_samples (6 ∷ 5 ∷ []) (omega arith) two-IsKept

kept_samples : keep gt 2 4 (6 ∷ 5 ∷ []) ≡ 5 ∷ 4 ∷ []
unfolding keep replace insert
kept_samples = refl

abbrev fresh : Usage
fresh = record {
  heap = record {
    bytes = λ _. 0;
    brk = record { mem_start_brk = 16; mem_brk = 16; mem_max_addr = 16 + max_heap };
    heap_listp = 0;
    free_listp = 0;
  };
  blocks = λ _. 0;
  block_sizes = λ _. 0;
  total_size = 0;
  max_total_size = 0;
}

abbrev requests : List TraceOp
requests =
    record { type = alloc; index = 0; size = 16 } ∷ record { type = free; index = 0; size = 0 } ∷ []
