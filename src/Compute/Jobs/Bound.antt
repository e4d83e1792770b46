-- ===== src/Compute/Jobs/Bound.antt =====
-- Dropping the oldest finished jobs where the jobs exceed the limit.
use home_lab_hq.Base.{
  ℕ, zero, suc, ◌+◌, ◌-◌, ◌≤◌, String, ◌≡◌, ◌⊎◌, refl, ap, inl, inr, true, false, none, some, List,
  [], ◌∷◌, arith, ltb, leb, length, Bool-cases,
}
use home_lab_hq.Dict.{lookup, keep_items}
use home_lab_hq.Dict.Laws.{IsDict}
use home_lab_hq.Prune.{take, sort_items, drop_chosen}
use home_lab_hq.Prune.Laws.{length-sort_items}
use home_lab_hq.Prune.Named.{AreNamed, drop_chosen-AreNamed}
use home_lab_hq.Prune.Chosen.{drop_chosen-Drops}
use home_lab_hq.Compute.Jobs.{
  Job, Jobs, is_terminal, ended_at, ended_before, terminal_item, bound_jobs,
}

-- Every job stands under its own id.
abbrev pub HaveJobIds : Jobs → Type 0
HaveJobIds = AreNamed (λ item. item.1.id)

ended-le : (x y : String × Job) → ended_before x y ≡ true → ended_at x.1 ≤ ended_at y.1
unfolding ended_before
ended-le x y h = ground arith

ended_not-le : (x y : String × Job) → ended_before x y ≡ false → ended_at y.1 ≤ ended_at x.1
unfolding ended_before
ended_not-le x y h = ground arith

-- What bounding the jobs to the limit leaves of them.
pub record BoundJobs (limit : ℕ) (d after : Jobs) : Type 0 where
  pub keys : IsDict after
  pub ids : HaveJobIds after
  pub bound : (length after ≤ limit) ⊎ (length (keep_items terminal_item after) ≡ 0)
  pub was : (k : String) (j : Job) → lookup k after ≡ some j → lookup k d ≡ some j
  pub active :
      (k : String) (j : Job)
      → lookup k d ≡ some j
      → is_terminal j.state ≡ false
      → lookup k after ≡ some j
  pub oldest :
      (k l : String) (i j : Job)
      → lookup k d ≡ some i
      → lookup k after ≡ none
      → lookup l after ≡ some j
      → is_terminal j.state ≡ true
      → ended_at i ≤ ended_at j

-- Taking more than there is takes everything.
take_all : {A : Type 0} (n : ℕ) (xs : List A) → length xs ≤ n → take n xs ≡ take (length xs) xs
take_all zero [] h = refl
take_all (suc n) [] h = refl
take_all zero (x ∷ xs) h = absurd (omega arith)
take_all (suc n) (x ∷ xs) h = ap (λ ys. x ∷ ys) (take_all n xs (omega arith))

module _ (limit : ℕ) (d : Jobs) (h : IsDict d) (ids : HaveJobIds d) where
  of_drops :
      (n : ℕ)
      → n ≤ length (keep_items terminal_item d)
      → (length d ≤ n + limit) ⊎ (n ≡ length (keep_items terminal_item d))
      → BoundJobs limit d (drop_chosen ended_before (λ item. item.1.id) terminal_item n d)
  of_drops n enough size =
      let drops =
        drop_chosen-Drops terminal_item ended_at ended_before (λ item. item.1.id) n d ended-le
          ended_not-le h ids enough in
      record {
        keys = drops.keys;
        ids = drop_chosen-AreNamed ended_before (λ item. item.1.id) terminal_item n d ids;
        bound = elim size [
          | inl few ↦ inl (omega (arith, drops.length))
          | inr whole ↦ inr (omega (arith, drops.count))
        ];
        was = drops.was;
        active = drops.others;
        oldest = drops.lowest;
      }

  pub bound_jobs-BoundJobs : BoundJobs limit d (bound_jobs limit d)
  unfolding bound_jobs drop_chosen
  bound_jobs-BoundJobs = elim (Bool-cases (ltb limit (length d))) [
    | inr few ↦ rw few (record {
      keys = h;
      ids = ids;
      bound = inl (ground arith);
      was = λ k j e. e;
      active = λ k j e idle. e;
      oldest = λ k l i j e gone stays over. absurd (cc (e, gone));
    })
    | inl over ↦
        let some_of = keep_items terminal_item d in
        elim (Bool-cases (leb (length d - limit) (length some_of))) [
          | inl enough ↦ rw over (of_drops (length d - limit) (ground arith) (inl (omega arith)))
          | inr short ↦
              rw
                (
                  over,
                  take_all (length d - limit) (sort_items ended_before some_of)
                      (ground (arith, length-sort_items ended_before some_of)),
                  length-sort_items ended_before some_of,
                )
                (of_drops (length some_of) (omega arith) (inr refl))
        ]
  ]
