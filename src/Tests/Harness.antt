-- ===== src/Tests/Harness.antt =====
-- The test harness of the puzzles and the trace reader on concrete inputs.
use computer_systems_labs.Base.{
  ℕ, ◌+◌, ◌≤◌, ◌≡◌, inl, ◌↔◌, refl, arith, none, some, List, [], ◌∷◌, length, All, sub32,
}
use computer_systems_labs.Datalab.Puzzles.{bit_nor, copy_lsb}
use computer_systems_labs.Datalab.Reference.{ref_bit_nor, ref_copy_lsb}
use computer_systems_labs.Datalab.Harness.{
  TestRec, gen_vals, count_errors, max_test_vals, until_error, test_args,
}
use computer_systems_labs.Datalab.Harness.Values.{
  consecutive, gen_vals-exhaustive, gen_vals-overflow, length-gen_vals,
}
use computer_systems_labs.Datalab.Harness.Laws.{AgreesOn, count_errors_lem}
use computer_systems_labs.Driver.Valid.{alloc, free, realloc}
use computer_systems_labs.Driver.Trace.{
  number, word, Trace, loaded, overrun, read_trace, read_number, read_header, scan_ops, store_op,
  larger_index, check_counts,
}
use computer_systems_labs.Driver.Trace.Format.{
  print_trace, largest_index, IsTrace, read_trace-print_trace,
}
use computer_systems_labs.Driver.Trace.Laws.{Indexed, read_trace_lem}

on_pair : (ℕ → ℕ → ℕ) → List ℕ → ℕ
on_pair f [] = 0
on_pair f (x ∷ []) = 0
on_pair f (x ∷ y ∷ xs) = f x y

on_first : (ℕ → ℕ) → List ℕ → ℕ
on_first f [] = 0
on_first f (x ∷ xs) = f x

abbrev nor_test : TestRec
nor_test = record {
  solution_funct = on_pair bit_nor;
  test_funct = on_pair ref_bit_nor;
  args = 2;
  min = λ _. 0x8000_0000;
  max = λ _. 0x7fff_ffff;
}

abbrev lsb_test : TestRec
lsb_test = record {
  solution_funct = on_first copy_lsb;
  test_funct = on_first ref_copy_lsb;
  args = 1;
  min = λ _. 0;
  max = λ _. 3;
}

count_errors_example :
    (count_errors 2 nor_test (6 ∷ 1 ∷ []) (5 ∷ []) [] ≡ 0)
    ↔ AgreesOn 2 nor_test (6 ∷ 1 ∷ []) (5 ∷ []) []
count_errors_example = count_errors_lem 1 nor_test (6 ∷ 1 ∷ []) (5 ∷ []) [] (omega arith)

nor_passes : count_errors 2 nor_test (6 ∷ 1 ∷ []) (5 ∷ []) [] ≡ 0
unfolding count_errors until_error test_args on_pair bit_nor ref_bit_nor
nor_passes = refl

gen_vals-exhaustive_example :
    gen_vals (λ _. 0) none 0xffff_fffe 2 500_000 ≡ some (consecutive 0xffff_fffe 5)
gen_vals-exhaustive_example =
    gen_vals-exhaustive (λ _. 0) 0xffff_fffe 2 500_000 5 (omega arith) (omega arith) refl refl
      (omega arith) (omega arith) (omega arith)

five_values : consecutive 0xffff_fffe 5 ≡ 0xffff_fffe ∷ 0xffff_ffff ∷ 0 ∷ 1 ∷ 2 ∷ []
unfolding consecutive
five_values = refl

gen_vals-overflow_example :
    (xs : List ℕ) × (gen_vals (λ _. 0) none 1 (1 + max_test_vals) 500_000 ≡ some xs)
    × (length xs ≡ max_test_vals + 1)
gen_vals-overflow_example = gen_vals-overflow (λ _. 0) 1 500_000 (omega arith) (omega arith)

length-gen_vals_example :
    (xs : List ℕ) × (gen_vals (λ _. 0) none 0x8000_0000 0x7fff_ffff 500_000 ≡ some xs)
    × (length xs ≤ max_test_vals)
length-gen_vals_example =
    length-gen_vals (λ _. 0) none 0x8000_0000 0x7fff_ffff 500_000 (omega arith) (omega arith)
      (omega arith) (inl (omega arith))

-- A payload that is allocated, resized and freed.
abbrev short_trace : Trace
short_trace = record {
  sugg_heapsize = 4096;
  num_ids = 1;
  num_ops = 3;
  weight = 1;
  ops =
      record { type = alloc; index = 0; size = 512 }
      ∷ record { type = realloc; index = 0; size = 640 }
      ∷ record { type = free; index = 0; size = 0 }
      ∷ [];
}

short-IsTrace : IsTrace short_trace
unfolding largest_index larger_index
short-IsTrace = record { counted = refl; indexed = refl; sizes = (tt, (tt, (refl, tt))) }

read_trace-print_trace_example : read_trace (print_trace short_trace) ≡ loaded short_trace
read_trace-print_trace_example = read_trace-print_trace short_trace short-IsTrace

read_trace_example :
    All (λ op. Indexed (sub32 1 1) op.type op.index) short_trace.ops × (length short_trace.ops ≡ 3)
read_trace_example =
    read_trace_lem (print_trace short_trace) short_trace
      (read_trace-print_trace short_trace short-IsTrace)

-- One operation more than the header counts is stored behind the array.
too_many :
    read_trace (number 8 ∷ number 1 ∷ number 0 ∷ number 1 ∷ word 102 ∷ number 0 ∷ []) ≡ overrun
unfolding read_trace read_header read_number scan_ops store_op check_counts
too_many = refl

-- The index of a free is not compared with the number of blocks.
free_out_of_range :
    (t : Trace) × (read_trace (number 8 ∷ number 1 ∷ number 1 ∷ number 1 ∷ word 102 ∷ number 7 ∷ [])
      ≡ loaded t)
unfolding read_trace read_header read_number scan_ops store_op check_counts
free_out_of_range = (_, refl)
