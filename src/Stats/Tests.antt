-- ===== src/Stats/Tests.antt =====
-- Four samples and a sorting by insertion.
use fpga_sim_core.Prelude.{ℕ, ◌≤◌, ◌≡◌, refl, List, [], ◌∷◌, arith, length, leb, if◌then◌else◌}
use fpga_sim_core.Stats.{compute_with}
use fpga_sim_core.Stats.Bins.{total, compute_with-total}
use fpga_sim_core.Stats.Ranks.{compute_with-ordered}

abbrev insert_sorted : ℕ → List ℕ → List ℕ
insert_sorted x [] = x ∷ []
insert_sorted x (y ∷ ys) = if leb x y then x ∷ y ∷ ys else y ∷ insert_sorted x ys

abbrev sorted_list : List ℕ → List ℕ
sorted_list [] = []
sorted_list (x ∷ xs) = insert_sorted x (sorted_list xs)

abbrev samples : List ℕ
samples = 19 ∷ 16 ∷ 90 ∷ 17 ∷ []

median_of_four : (compute_with sorted_list samples).median ≡ 17
unfolding compute_with
median_of_four = refl

compute_with-total_example : total (compute_with sorted_list samples).histogram ≡ length samples
compute_with-total_example = compute_with-total sorted_list samples (omega arith)

compute_with-ordered_example :
    let s = compute_with sorted_list samples in
    (s.min ≤ s.median) × (s.median ≤ s.p99) × (s.p99 ≤ s.max)
compute_with-ordered_example =
    compute_with-ordered sorted_list samples
      (
        (omega arith, (omega arith, (omega arith, tt))),
        ((omega arith, (omega arith, tt)), ((omega arith, tt), (tt, tt))),
      )
      refl
