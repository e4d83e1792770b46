-- ===== src/Poller/Append/Bounds.antt =====
-- The history of a device stays bounded, and its long-range series keeps its spacing.
use home_lab_hq.Base.{
  ℕ, zero, suc, ◌+◌, ◌-◌, ◌≤◌, ◌<◌, String, ◌≡◌, ◌≢◌, refl, ◌∙◌, Bool, Option, none, some, List, [],
  ◌∷◌, ◌++◌, arith, leb, if◌then◌else◌, length, length-keep_last, length-append, last?, last?-snoc,
  or_default, drop, Option-cases, Bool-cases, inl, inr, ◌==◌,
}
use mathlib.Core.Path.{subst}
use home_lab_hq.Dict.{Dict, lookup, upsert}
use home_lab_hq.Dict.Laws.{lookup-upsert}
use home_lab_hq.Poller.Record.{InterfaceSample}
use home_lab_hq.Poller.Append.{
  Series, InterfaceHistory, HistoryDoc, history_max, long_interval, long_max, online_max,
  append_capped, append_long, append_samples, append_counter, append_interface, append_interfaces,
  append_history,
}

-- A property of every value that a dictionary holds.
abbrev pub Every {ℓ} : {V : Type ℓ} → (V → Type 0) → Dict V → Type ℓ
Every {V} P d = (k : String) (v : V) → lookup k d ≡ some v → P v

some_path : {A : Type 0} {a b : A} → some a ≡ some b → a ≡ b
some_path h = cc

Every-upsert :
    {V : Type 0} (P : V → Type 0) (k : String) (v : V) (f : V → V) (d : Dict V)
    → P v
    → ((w : V) → P w → P (f w))
    → Every P d
    → Every P (upsert k v f d)
Every-upsert {V} P k v f d base step every j w found = elim (Bool-cases (k == j)) [
  | inl same ↦
      let e : some (f (or_default (lookup k d) v)) ≡ some w =
        rw same at (rw (lookup-upsert j k v f d) at found) in
      subst P (some_path e) (step _ (stored (lookup k d) refl))
  | inr other ↦ every j w (rw other at (rw (lookup-upsert j k v f d) at found))
]
  where
    stored : (o : Option V) → lookup k d ≡ o → P (or_default o v)
    stored none e = base
    stored (some u) e = every k u e

append_capped-online :
    (ts v : ℕ) (arr : Series ℕ) → length (append_capped online_max (ts, v) arr) ≤ online_max
unfolding append_capped
append_capped-online ts v arr = length-keep_last online_max (arr ++ (ts, v) ∷ [])

last?-drop : {A : Type 0} (n : ℕ) (xs : List A) → n < length xs → last? (drop n xs) ≡ last? xs
last?-drop zero xs h = refl
last?-drop (suc n) [] h = absurd (omega arith)
last?-drop (suc n) (x ∷ []) h = absurd (omega arith)
last?-drop (suc n) (x ∷ y ∷ xs) h = last?-drop n (y ∷ xs) (omega arith)

newest :
    {A : Type 0} (limit : ℕ) (x : A) (arr : List A)
    → 0 < limit
    → last? (append_capped limit x arr) ≡ some x
unfolding append_capped
newest limit x arr pos =
    last?-drop _ (arr ++ x ∷ []) (omega (arith, length-append arr (x ∷ []))) ∙ last?-snoc arr x

-- Consecutive points of a long-range series are an interval apart.
abbrev pub IsSpaced : {N : Type 0} → Series N → Type 0
IsSpaced [] = Unit
IsSpaced (p ∷ []) = Unit
IsSpaced (p ∷ q ∷ rest) = (p.0 + long_interval ≤ q.0) × IsSpaced (q ∷ rest)

module _ {N : Type 0} where
  IsSpaced-tail : (p : ℕ × N) (arr : Series N) → IsSpaced (p ∷ arr) → IsSpaced arr
  IsSpaced-tail p [] h = tt
  IsSpaced-tail p (q ∷ rest) h = h.1

  IsSpaced-drop : (n : ℕ) (arr : Series N) → IsSpaced arr → IsSpaced (drop n arr)
  IsSpaced-drop zero arr h = h
  IsSpaced-drop (suc n) [] h = tt
  IsSpaced-drop (suc n) (p ∷ arr) h = IsSpaced-drop n arr (IsSpaced-tail p arr h)

  IsSpaced-snoc :
      (arr : Series N) (t : ℕ) (w : N) (ts : ℕ) (v : N)
      → IsSpaced arr
      → last? arr ≡ some (t, w)
      → t + long_interval ≤ ts
      → IsSpaced (arr ++ (ts, v) ∷ [])
  IsSpaced-snoc [] t w ts v h last far = cc
  IsSpaced-snoc ((u, x) ∷ []) t w ts v h last far = let same : u ≡ t = cc last in (omega arith, tt)
  IsSpaced-snoc (p ∷ q ∷ rest) t w ts v h last far =
      (h.0, IsSpaced-snoc (q ∷ rest) t w ts v h.1 last far)

  last?-none : (arr : Series N) → last? arr ≡ none → arr ≡ []
  last?-none [] h = refl
  last?-none (p ∷ []) h = cc
  last?-none (p ∷ q ∷ rest) h = absurd (never (q ∷ rest) (λ e. cc) h)
    where
      never : (l : Series N) → l ≢ [] → last? l ≡ none → ⊥
      never [] ne e = ne refl
      never (x ∷ []) ne e = cc
      never (x ∷ y ∷ l) ne e = never (y ∷ l) (λ e. cc) e

  -- A long-range series within its bounds: at most `long_max` points, each an interval apart.
  abbrev pub IsLongSeries : Series N → Type 0
  IsLongSeries arr = (length arr ≤ long_max) × IsSpaced arr

  append_long-IsLongSeries :
      (ts : ℕ) (v : N) (arr : Series N) → IsLongSeries arr → IsLongSeries (append_long ts v arr)
  unfolding append_long append_capped
  append_long-IsLongSeries ts v arr h = elim (Option-cases (last? arr)) [
    | inl nothing ↦ rw (last?-none arr nothing) (omega arith, tt)
    | inr ((t, w), e) ↦ elim (Bool-cases (leb long_interval (ts - t))) [
      | inl far ↦
          rw (e, append_long)
            (rw far (
              length-keep_last long_max (arr ++ (ts, v) ∷ []),
              IsSpaced-drop _ _ (IsSpaced-snoc arr t w ts v h.1 e (ground arith)),
            ))
      | inr near ↦ rw (e, append_long) (rw near h)
    ]
  ]

  append_capped-bounded :
      (limit ts : ℕ) (v : N) (arr : Series N) → length (append_capped limit (ts, v) arr) ≤ limit
  unfolding append_capped
  append_capped-bounded limit ts v arr = length-keep_last limit (arr ++ (ts, v) ∷ [])

  append_counter-bounded :
      (ts : ℕ) (v : Option N) (arr : Series N)
      → length arr ≤ history_max
      → length (append_counter ts v arr) ≤ history_max
  unfolding append_counter
  append_counter-bounded ts none arr h = h
  append_counter-bounded ts (some v) arr h = append_capped-bounded history_max ts v arr

  -- The counters of one interface, within their bounds.
  abbrev pub IsInterfaceBounded : InterfaceHistory N → Type 0
  IsInterfaceBounded h = (length h.rx ≤ history_max) × (length h.tx ≤ history_max)

  -- Every series of a history document within its bounds.
  pub record IsBounded (doc : HistoryDoc N) : Type 0 where
    pub recent : Every (λ arr. length arr ≤ history_max) doc.history
    pub long : Every IsLongSeries doc.history_long
    pub interfaces : Every IsInterfaceBounded doc.if_history
    pub online : length doc.online ≤ online_max

  append_samples-bounded :
      (ts : ℕ) (samples : Dict N) (hist long : Dict (Series N))
      → Every (λ arr. length arr ≤ history_max) hist
      → Every IsLongSeries long
      → let (hist', long') = append_samples ts samples (hist, long) in
        Every (λ arr. length arr ≤ history_max) hist' × Every IsLongSeries long'
  unfolding append_samples
  append_samples-bounded ts [] hist long h l = (h, l)
  append_samples-bounded ts ((k, v) ∷ samples) hist long h l =
      append_samples-bounded ts samples _ _
        (Every-upsert (λ arr. length arr ≤ history_max) k [] (append_capped history_max (ts, v))
          hist (omega arith) (λ arr _. append_capped-bounded history_max ts v arr) h)
        (Every-upsert IsLongSeries k [] (append_long ts v) long (omega arith, tt)
          (append_long-IsLongSeries ts v) l)

  append_interfaces-bounded :
      (ts : ℕ) (samples : Dict (InterfaceSample N)) (ifh : Dict (InterfaceHistory N))
      → Every IsInterfaceBounded ifh
      → Every IsInterfaceBounded (append_interfaces ts samples ifh)
  unfolding append_interfaces append_interface
  append_interfaces-bounded ts [] ifh h = h
  append_interfaces-bounded ts ((dvc, entry) ∷ rest) ifh h = append_interfaces-bounded ts rest _ (
      Every-upsert IsInterfaceBounded dvc _ (append_interface ts entry) ifh
        (omega arith, omega arith)
        (λ r b. (
          append_counter-bounded ts entry.rx r.rx b.0,
          append_counter-bounded ts entry.tx r.tx b.1,
        ))
        h)

  -- A poll keeps every series of the history within its bound and the long-range points an
  -- interval apart, and its own reachability is the newest point of the online series.
  pub append_history-IsBounded :
      (ts : ℕ) (samples : Dict N) (if_samples : Dict (InterfaceSample N)) (online : Bool)
      (doc : HistoryDoc N)
      → IsBounded doc
      → let after = append_history ts samples if_samples online doc in
        IsBounded after × (last? after.online ≡ some (ts, if online then 1 else 0))
  unfolding append_history
  append_history-IsBounded ts samples if_samples online doc b =
      let (h, l) = append_samples-bounded ts samples doc.history doc.history_long b.recent b.long in
      (
        record {
          recent = h;
          long = l;
          interfaces = append_interfaces-bounded ts if_samples doc.if_history b.interfaces;
          online = append_capped-online ts (if online then 1 else 0) doc.online;
        },
        newest online_max (ts, if online then 1 else 0) doc.online (omega arith),
      )
