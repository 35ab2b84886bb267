-- ===== src/LoadTest/Buckets.antt =====
-- What the buckets of the rate hold.
use tor_rotating_http_proxy.Prelude.{
  ℕ, zero, suc, ◌+◌, ◌%◌, ◌^◌, ◌≤◌, ◌<◌, ◌≡◌, ◌≢◌, refl, sym, ap, subst, ◌∙◌, Bool, true, false,
  ◌&&◌, some, List, [], ◌∷◌, length, arith, Bool-cases, inl, inr, ◌⊎◌, ◌==◌, if◌then◌else◌, incr64,
  get_elem?, set, leb, ltb,
}
use tor_rotating_http_proxy.LoadTest.{
  RateBucket, empty_buckets, bucket_at, counted, count_tick, in_window, actual_rps,
}

-- One Record for each tick, the newest first
unfoldable pub record_ticks : List ℕ → List RateBucket → List RateBucket
record_ticks [] bs = bs
record_ticks (t ∷ ts) bs = count_tick t (record_ticks ts bs)

-- The ticks, the newest first, in the order of a clock that does not go back, up to now
abbrev pub Ordered : ℕ → List ℕ → Type 0
Ordered now [] = Unit
Ordered now (t ∷ ts) = (t ≤ now) × Ordered t ts

-- Is a tick one of the last ten, of which now is one?
abbrev is_recent : ℕ → ℕ → Bool
is_recent now t = leb t now && ltb now (t + 10)

-- How many of the ticks are among the last ten
abbrev pub recent : ℕ → List ℕ → ℕ
recent now [] = 0
recent now (t ∷ ts) = let rest = recent now ts in if is_recent now t then suc rest else rest

-- How many of them the test of Snapshot takes
abbrev counted_in : ℕ → List ℕ → ℕ
counted_in now [] = 0
counted_in now (t ∷ ts) = let rest = counted_in now ts in if in_window now t then suc rest else rest

-- Of them, those of one bucket
abbrev part : ℕ → ℕ → List ℕ → ℕ
part now i [] = 0
part now i (t ∷ ts) =
    let rest = part now i ts in if (t % 10 == i) && in_window now t then suc rest else rest

empty_bucket : RateBucket
empty_bucket = record { tick = 0; count = 0 }

abbrev landed : ℕ → ℕ → ℕ → RateBucket → RateBucket
landed r i t b = if r == i then counted (bucket_at (some b) t) else b

-- What one bucket holds
cell : ℕ → List ℕ → RateBucket
unfolding empty_bucket
cell i [] = empty_bucket
cell i (t ∷ ts) = let b = cell i ts in landed (t % 10) i t b

-- A bucket holds what a part of the ticks comes to.
Holds : ℕ → List ℕ → RateBucket → Type 0
Holds i ts b =
    (b.count ≤ length ts)
    × ((b.count ≡ 0) ⊎ (b.tick % 10 ≡ i))
    × ((now : ℕ) → Ordered now ts → b.tick ≤ now)
    × ((now : ℕ) → Ordered now ts → part now i ts ≡ (if in_window now b.tick then b.count else 0))

Ordered-later : (now later : ℕ) (ts : List ℕ) → now ≤ later → Ordered now ts → Ordered later ts
Ordered-later now later [] h o = tt
Ordered-later now later (t ∷ ts) h o = (omega (arith, h, o.0), o.1)

incr64_of_lt : (n : ℕ) → suc n < 2 ^ 64 → incr64 n ≡ suc n
incr64_of_lt n h = ground (arith, h)

-- The bucket of the tick has an older one, of the same place: none of it is recent.
older :
    (now t k n p : ℕ)
    → (n ≡ 0) ⊎ (k % 10 ≡ t % 10)
    → k ≤ t
    → k ≢ t
    → t ≤ now
    → p ≡ (if in_window now k then n else 0)
    → p ≡ 0
older now t k n p (inl none_there) h1 h2 h3 h4 = ground (arith, none_there, h4)
older now t k n p (inr place) h1 h2 h3 h4 =
    let gap : k + 10 ≤ t = omega (arith, place, h1, h2) in
    let out : in_window now k ≡ false = ground (arith, gap, h3) in h4 ∙ rw out refl

counted_twice :
    (w : Bool) (p n : ℕ)
    → p ≡ (if w then n else 0)
    → (if w then suc p else p) ≡ (if w then suc n else 0)
counted_twice true p n h = ap suc h
counted_twice false p n h = h

counted_once : (w : Bool) (p : ℕ) → p ≡ 0 → (if w then suc p else p) ≡ (if w then 1 else 0)
counted_once true p h = ap suc h
counted_once false p h = h

landed-Holds :
    (i t : ℕ) (ts : List ℕ) (b : RateBucket)
    → suc (length ts) < 2 ^ 64
    → Holds i ts b
    → Holds i (t ∷ ts) (landed (t % 10) i t b)
unfolding Holds
landed-Holds i t ts b h (small, place, before, holds) = elim (Bool-cases (t % 10 == i)) [
  | inr other ↦ rw other (
    omega (arith, small),
    place,
    (λ now o. before now (Ordered-later t now ts o.0 o.1)),
    (λ now o. holds now (Ordered-later t now ts o.0 o.1)),
  )
  | inl here ↦
      let at : t % 10 ≡ i = ground (arith, here) in
      elim (Bool-cases (b.tick == t)) [
        | inl same ↦
            let e : b.tick ≡ t = ground (arith, same) in
            rw (here, same, incr64_of_lt b.count (omega (arith, small, h)))
              (
                omega (arith, small),
                inr (ap (λ k. k % 10) e ∙ at),
                (λ now o. rw e o.0),
                (λ now o. rw e (
                    counted_twice (in_window now t) (part now i ts) b.count (
                      subst (λ k. part now i ts ≡ (if in_window now k then b.count else 0)) e
                        (holds now (Ordered-later t now ts o.0 o.1))))),
              )
        | inr new ↦
            rw (here, new, incr64_of_lt 0 (omega arith))
              (
                omega arith,
                inr at,
                (λ now o. o.0),
                (λ now o. counted_once (in_window now t) (part now i ts) (
                    older now t b.tick b.count (part now i ts)
                      (subst (λ j. (b.count ≡ 0) ⊎ (b.tick % 10 ≡ j)) (sym at) place) (before t o.1)
                      (ground (arith, new)) o.0 (holds now (Ordered-later t now ts o.0 o.1)))),
              )
      ]
]

cell-Holds : (i : ℕ) (ts : List ℕ) → length ts < 2 ^ 64 → Holds i ts (cell i ts)
unfolding cell empty_bucket
cell-Holds i [] h =
    unfold Holds in (omega arith, inl refl, (λ now o. omega arith), λ now o. ground arith)
cell-Holds i (t ∷ ts) h = landed-Holds i t ts (cell i ts) h (cell-Holds i ts (omega (arith, h)))

abbrev places : List ℕ
places = 0 ∷ 1 ∷ 2 ∷ 3 ∷ 4 ∷ 5 ∷ 6 ∷ 7 ∷ 8 ∷ 9 ∷ []

cells : List ℕ → List ℕ → List RateBucket
cells [] ts = []
cells (i ∷ is) ts = cell i ts ∷ cells is ts

abbrev placed : ℕ → ℕ → List RateBucket → List RateBucket
placed r t bs = set bs r (counted (bucket_at (get_elem? bs r) t))

-- The bucket of a tick's place changes, and no other.
placed-cells :
    (r t : ℕ) (ts : List ℕ)
    → r < 10
    → t % 10 ≡ r
    → placed r t (cells places ts) ≡ cells places (t ∷ ts)
unfolding cells cell
placed-cells zero t ts h e = rw e refl
placed-cells (suc zero) t ts h e = rw e refl
placed-cells (suc (suc zero)) t ts h e = rw e refl
placed-cells (suc (suc (suc zero))) t ts h e = rw e refl
placed-cells (suc (suc (suc (suc zero)))) t ts h e = rw e refl
placed-cells (suc (suc (suc (suc (suc zero))))) t ts h e = rw e refl
placed-cells (suc (suc (suc (suc (suc (suc zero)))))) t ts h e = rw e refl
placed-cells (suc (suc (suc (suc (suc (suc (suc zero))))))) t ts h e = rw e refl
placed-cells (suc (suc (suc (suc (suc (suc (suc (suc zero)))))))) t ts h e = rw e refl
placed-cells (suc (suc (suc (suc (suc (suc (suc (suc (suc zero))))))))) t ts h e = rw e refl
placed-cells (suc (suc (suc (suc (suc (suc (suc (suc (suc (suc r)))))))))) t ts h e =
    absurd (omega (arith, h))

record_ticks-cells : (ts : List ℕ) → record_ticks ts (empty_buckets 10) ≡ cells places ts
unfolding record_ticks count_tick
record_ticks-cells [] = unfold cells cell empty_bucket in refl
record_ticks-cells (t ∷ ts) =
    rw (record_ticks-cells ts) (placed-cells (t % 10) t ts (omega arith) refl)

-- The parts of these places
parts : ℕ → List ℕ → List ℕ → ℕ
parts now [] ts = 0
parts now (i ∷ is) ts = part now i ts + parts now is ts

grown :
    (r : ℕ) (w : Bool) (now : ℕ) (ts : List ℕ)
    → r < 10
    → parts now places ts ≡ counted_in now ts
    → (let p : ℕ → ℕ = λ i. if (r == i) && w then suc (part now i ts) else part now i ts in
        p 0 + (p 1 + (p 2 + (p 3 + (p 4 + (p 5 + (p 6 + (p 7 + (p 8 + (p 9 + 0))))))))))
      ≡ (if w then suc (counted_in now ts) else counted_in now ts)
unfolding parts
grown zero false now ts h e = e
grown zero true now ts h e = omega (arith, e)
grown (suc zero) false now ts h e = e
grown (suc zero) true now ts h e = omega (arith, e)
grown (suc (suc zero)) false now ts h e = e
grown (suc (suc zero)) true now ts h e = omega (arith, e)
grown (suc (suc (suc zero))) false now ts h e = e
grown (suc (suc (suc zero))) true now ts h e = omega (arith, e)
grown (suc (suc (suc (suc zero)))) false now ts h e = e
grown (suc (suc (suc (suc zero)))) true now ts h e = omega (arith, e)
grown (suc (suc (suc (suc (suc zero))))) false now ts h e = e
grown (suc (suc (suc (suc (suc zero))))) true now ts h e = omega (arith, e)
grown (suc (suc (suc (suc (suc (suc zero)))))) false now ts h e = e
grown (suc (suc (suc (suc (suc (suc zero)))))) true now ts h e = omega (arith, e)
grown (suc (suc (suc (suc (suc (suc (suc zero))))))) false now ts h e = e
grown (suc (suc (suc (suc (suc (suc (suc zero))))))) true now ts h e = omega (arith, e)
grown (suc (suc (suc (suc (suc (suc (suc (suc zero)))))))) false now ts h e = e
grown (suc (suc (suc (suc (suc (suc (suc (suc zero)))))))) true now ts h e = omega (arith, e)
grown (suc (suc (suc (suc (suc (suc (suc (suc (suc zero))))))))) false now ts h e = e
grown (suc (suc (suc (suc (suc (suc (suc (suc (suc zero))))))))) true now ts h e = omega (arith, e)
grown (suc (suc (suc (suc (suc (suc (suc (suc (suc (suc r)))))))))) w now ts h e =
    absurd (omega (arith, h))

parts-counted_in : (now : ℕ) (ts : List ℕ) → parts now places ts ≡ counted_in now ts
unfolding parts
parts-counted_in now [] = refl
parts-counted_in now (t ∷ ts) =
    grown (t % 10) (in_window now t) now ts (omega arith) (parts-counted_in now ts)

added :
    (w : Bool) (n : ℕ) {m m' : ℕ} → m ≡ m' → (if w then n + m else m) ≡ (if w then n else 0) + m'
added true n e = ap (λ k. n + k) e
added false n e = omega (arith, e)

actual_rps-parts :
    (now : ℕ) (is ts : List ℕ)
    → Ordered now ts
    → length ts < 2 ^ 64
    → actual_rps now (cells is ts) ≡ parts now is ts
unfolding Holds cells parts actual_rps
actual_rps-parts now [] ts o h = refl
actual_rps-parts now (i ∷ is) ts o h =
    let (small, place, before, holds) = cell-Holds i ts h in
    let rest = actual_rps-parts now is ts o h in
    rw (holds now o) (added (in_window now (cell i ts).tick) (cell i ts).count rest)

counted_in-recent : (now : ℕ) (ts : List ℕ) → Ordered now ts → counted_in now ts ≡ recent now ts
counted_in-recent now [] o = refl
counted_in-recent now (t ∷ ts) o =
    ground (arith, o.0, counted_in-recent now ts (Ordered-later t now ts o.0 o.1))

pub record_ticks-recent :
    (now : ℕ) (ts : List ℕ)
    → Ordered now ts
    → length ts < 2 ^ 64
    → actual_rps now (record_ticks ts (empty_buckets 10)) ≡ recent now ts
record_ticks-recent now ts o h =
    ap (actual_rps now) (record_ticks-cells ts)
    ∙ actual_rps-parts now places ts o h
    ∙ parts-counted_in now ts
    ∙ counted_in-recent now ts o
