-- ===== src/Prune/Chosen.antt =====
-- Dropping the first of the chosen records of a dictionary.
use home_lab_hq.Base.{
  ℕ, ◌+◌, ◌≤◌, String, ◌≡◌, refl, sym, ap, ◌∙◌, inl, inr, Bool, true, false, Option, none, some,
  List, [], ◌∷◌, arith, length, map, is_some, Bool-cases, Option-cases,
}
use home_lab_hq.Dict.{Dict, lookup, erase, keys, contains, keep_items}
use home_lab_hq.Dict.Laws.{IsDict, kept, lookup-keep_items, keep_items-IsDict, length-erase}
use home_lab_hq.Prune.{take, erase_all, sort_items, drop_chosen}
use home_lab_hq.Prune.Laws.{
  length-erase_all, lookup-erase_all_absent, lookup-erase_all_present, take-IsDict,
  lookup-take_found, length-take_le, lookup-sort_items, sort_items-IsDict, length-sort_items,
}
use home_lab_hq.Prune.Ranked.{taken_is_older, sort_items-IsRanked}
use home_lab_hq.Prune.Newest.{erase_all_was, erase_all-IsDict}
use home_lab_hq.Prune.Named.{
  AreNamed, map-AreNamed, take-AreNamed, keep_items-AreNamed, sort_items-AreNamed,
}

module _ {V : Type 0} where
  some_injective : {v w : V} → some v ≡ some w → v ≡ w
  some_injective e = cc e

  kept_found :
      (chosen : String → V → Bool) (k : String) (v : V) (o : Option V)
      → kept (chosen k) o ≡ some v
      → (o ≡ some v) × (chosen k v ≡ true)
  kept_found chosen k v none e = absurd (cc e)
  kept_found chosen k v (some w) e = elim (Bool-cases (chosen k w)) [
    | inl yes_it_is ↦
        let same : w ≡ v = some_injective (rw yes_it_is at e) in
        (ap some same, ap (chosen k) (sym same) ∙ yes_it_is)
    | inr not_it ↦ absurd (cc (rw not_it at e))
  ]

  kept_chosen :
      (chosen : String → V → Bool) (k : String) (v : V)
      → chosen k v ≡ true
      → kept (chosen k) (some v) ≡ some v
  kept_chosen chosen k v e = rw e refl

module _ {V : Type 0} (chosen : String → V → Bool) where
  keep_items-erase :
      (k : String) (d : Dict V) → keep_items chosen (erase k d) ≡ erase k (keep_items chosen d)
  unfolding keep_items erase
  keep_items-erase k [] = refl
  keep_items-erase k ((j, v) ∷ d) = ground (arith, keep_items-erase k d)

  pub keep_items-erase_all :
      (ks : List String) (d : Dict V)
      → keep_items chosen (erase_all ks d) ≡ erase_all ks (keep_items chosen d)
  keep_items-erase_all [] d = refl
  keep_items-erase_all (k ∷ ks) d =
      keep_items-erase_all ks (erase k d) ∙ ap (erase_all ks) (keep_items-erase k d)

  -- `after` is `d` without `n` of its chosen records, of the lowest ranks.
  pub record Drops (rank : V → ℕ) (n : ℕ) (d after : Dict V) : Type 0 where
    pub keys : IsDict after
    pub count : length (keep_items chosen after) + n ≡ length (keep_items chosen d)
    pub length : length after + n ≡ length d
    pub was : (k : String) (v : V) → lookup k after ≡ some v → lookup k d ≡ some v
    pub others :
        (k : String) (v : V) → lookup k d ≡ some v → chosen k v ≡ false → lookup k after ≡ some v
    pub lowest :
        (k j : String) (v w : V)
        → lookup k d ≡ some v
        → lookup k after ≡ none
        → lookup j after ≡ some w
        → chosen j w ≡ true
        → rank v ≤ rank w

  pub drop_chosen-Drops :
      (rank : V → ℕ) (less : String × V → String × V → Bool) (name : String × V → String) (n : ℕ)
      (d : Dict V)
      → ((x y : String × V) → less x y ≡ true → rank x.1 ≤ rank y.1)
      → ((x y : String × V) → less x y ≡ false → rank y.1 ≤ rank x.1)
      → IsDict d
      → AreNamed name d
      → n ≤ length (keep_items chosen d)
      → Drops rank n d (drop_chosen less name chosen n d)
  unfolding drop_chosen
  drop_chosen-Drops rank less name n d agrees agrees_not h named enough =
      rw (map-AreNamed name front front-AreNamed) (record {
        keys = erase_all-IsDict (keys front) d h;
        count = rw (keep_items-erase_all (keys front) d) counted;
        length = omega (arith, taken, length-erase_all front d front-IsDict h inside);
        was = λ k v e. erase_all_was k v (keys front) d e;
        others = others;
        lowest = lowest;
      })
    where
      some_of : Dict V
      some_of = keep_items chosen d

      some_of-IsDict : IsDict some_of
      some_of-IsDict = keep_items-IsDict chosen d h

      sorted : Dict V
      sorted = sort_items less some_of

      front : Dict V
      front = take n sorted

      front-AreNamed : AreNamed name front
      front-AreNamed =
          take-AreNamed name n sorted
            (sort_items-AreNamed name less some_of (keep_items-AreNamed name chosen d named))

      front-IsDict : IsDict front
      front-IsDict = take-IsDict n sorted (sort_items-IsDict less some_of some_of-IsDict)

      taken : length front ≡ n
      taken = length-take_le n sorted (omega (arith, enough, length-sort_items less some_of))

      in_some : (k : String) (v : V) → lookup k front ≡ some v → lookup k some_of ≡ some v
      in_some k v e =
          sym (lookup-sort_items less k some_of some_of-IsDict) ∙ lookup-take_found k n sorted v e

      -- What the dropped records were.
      found :
          (k : String) (v : V)
          → lookup k front ≡ some v
          → (lookup k d ≡ some v) × (chosen k v ≡ true)
      found k v e =
          kept_found chosen k v (lookup k d) (sym (lookup-keep_items chosen k d h) ∙ in_some k v e)

      inside : (k : String) → contains k front ≡ true → contains k d ≡ true
      inside k e = elim (Option-cases (lookup k front)) [
        | inl absent ↦ absurd (cc (e, absent))
        | inr (v, is) ↦ ap is_some (found k v is).0
      ]

      inside_some : (k : String) → contains k front ≡ true → contains k some_of ≡ true
      inside_some k e = elim (Option-cases (lookup k front)) [
        | inl absent ↦ absurd (cc (e, absent))
        | inr (v, is) ↦ ap is_some (in_some k v is)
      ]

      counted : length (erase_all (keys front) some_of) + n ≡ length some_of
      counted =
          omega
            (arith, taken, length-erase_all front some_of front-IsDict some_of-IsDict inside_some)

      others :
          (k : String) (v : V)
          → lookup k d ≡ some v
          → chosen k v ≡ false
          → lookup k (erase_all (keys front) d) ≡ some v
      others k v e not_chosen = elim (Option-cases (lookup k front)) [
        | inl absent ↦ lookup-erase_all_absent k front d absent ∙ e
        | inr (w, is) ↦
            let f = found k w is in
            absurd (cc (ap (chosen k) (some_injective (sym f.0 ∙ e)), f.1, not_chosen))
      ]

      not_taken :
          (j : String) (w : V)
          → lookup j (erase_all (keys front) d) ≡ some w
          → lookup j front ≡ none
      not_taken j w stays = elim (Option-cases (lookup j front)) [
        | inl absent ↦ absent
        | inr (x, is) ↦ absurd (cc (lookup-erase_all_present j front d (ap is_some is), stays))
      ]

      lowest :
          (k j : String) (v w : V)
          → lookup k d ≡ some v
          → lookup k (erase_all (keys front) d) ≡ none
          → lookup j (erase_all (keys front) d) ≡ some w
          → chosen j w ≡ true
          → rank v ≤ rank w
      lowest k j v w hk gone stays is_chosen = elim (Option-cases (lookup k front)) [
        | inl missing ↦ absurd (cc (lookup-erase_all_absent k front d missing, gone, hk))
        | inr (u, is) ↦
            let absent : lookup j front ≡ none = not_taken j w stays in
            let same : u ≡ v = some_injective (sym (found k u is).0 ∙ hk) in
            taken_is_older rank n sorted k j v w
              (sort_items-IsRanked rank less agrees agrees_not some_of some_of-IsDict)
              (rw (← same) is) absent
              (lookup-sort_items less j some_of some_of-IsDict
                ∙ lookup-keep_items chosen j d h
                ∙ ap (kept (chosen j)) (sym (lookup-erase_all_absent j front d absent) ∙ stays)
                ∙ kept_chosen chosen j w is_chosen)
      ]

length-erase_all_le :
    {V : Type 0} (ks : List String) (d : Dict V) → length (erase_all ks d) ≤ length d
length-erase_all_le [] d = omega arith
length-erase_all_le (k ∷ ks) d = omega (arith, length-erase_all_le ks (erase k d), length-erase k d)

-- Dropping never makes the records that pass another test more.
pub count-drop_chosen :
    {V : Type 0} (p chosen : String → V → Bool) (less : String × V → String × V → Bool)
    (name : String × V → String) (n : ℕ) (d : Dict V)
    → length (keep_items p (drop_chosen less name chosen n d)) ≤ length (keep_items p d)
unfolding drop_chosen
count-drop_chosen p chosen less name n d =
    let ks = map name (take n (sort_items less (keep_items chosen d))) in
    omega (arith, ap length (keep_items-erase_all p ks d), length-erase_all_le ks (keep_items p d))
