-- ===== src/Web/Query.antt =====
-- What the parameters of GET /api/ips say, and how the handler reads them.
use tor_rotating_http_proxy.Prelude.{
  ℕ, ◌≡◌, ◌≢◌, refl, sym, ap, ◌∙◌, String, Bool, true, false, [], ◌∷◌, ◌++◌, All, Option, none,
  some, arith, Bool-cases, inl, inr, ◌⊎◌, str_eq, eq_iff,
}
use tor_rotating_http_proxy.Prelude.Bytes.{Bytes, codes, bytes_eq_iff}
use tor_rotating_http_proxy.Prelude.Int.{pos, atoi}
use tor_rotating_http_proxy.Store.Listing.{parse_filter}
use tor_rotating_http_proxy.Web.{Params, get, has, int_param}

-- No parameter has this name.
abbrev pub Unnamed : String → Params → Type 0
Unnamed name = All (λ p. p.0 ≢ name)

-- The first parameter of this name has this value.
abbrev pub IsFirst : String → Bytes → Params → Type 0
IsFirst name v ps =
    (before after : Params) × (ps ≡ before ++ (name, v) ∷ after) × Unnamed name before

-- A number: the one that the first parameter of the name is read as, or, where none has the name, the
-- one that stands for it
abbrev pub IsNumber : String → ℕ → Params → ℕ → Type 0
IsNumber name fallback ps n =
    ((v : Bytes) × IsFirst name v ps × (atoi v ≡ some (pos n))) ⊎ (Unnamed name ps × (n ≡ fallback))

-- A filter: empty, true or false
abbrev pub IsFilter : Bytes → Option Bool → Type 0
IsFilter v none = v ≡ []
IsFilter v (some true) = v ≡ codes "true"
IsFilter v (some false) = v ≡ codes "false"

pub IsFilter-parse_filter :
    (v : Bytes) (used : Option Bool) → IsFilter v used → parse_filter v ≡ some used
IsFilter-parse_filter v none h = rw h refl
IsFilter-parse_filter v (some true) h = rw h refl
IsFilter-parse_filter v (some false) h = rw h refl

pub parse_filter-IsFilter :
    (v : Bytes) (used : Option Bool) → parse_filter v ≡ some used → IsFilter v used
parse_filter-IsFilter v none h =
    ground
      (arith, bytes_eq_iff v [], bytes_eq_iff v (codes "true"), bytes_eq_iff v (codes "false"), h)
parse_filter-IsFilter v (some true) h =
    ground
      (arith, bytes_eq_iff v [], bytes_eq_iff v (codes "true"), bytes_eq_iff v (codes "false"), h)
parse_filter-IsFilter v (some false) h =
    ground
      (arith, bytes_eq_iff v [], bytes_eq_iff v (codes "true"), bytes_eq_iff v (codes "false"), h)

fst_number : (m n : ℕ) → some (pos m) ≡ some (pos n) → m ≡ n
fst_number m n h = cc

str_eq-false : (k name : String) → k ≢ name → str_eq k name ≡ false
str_eq-false k name differs = elim (Bool-cases (str_eq k name)) [
  | inl same ↦ absurd (differs ((eq_iff k name).0 same))
  | inr other ↦ other
]

-- What the lookup of a name finds
Looked : String → Params → Type 0
Looked name ps =
    (IsFirst name (get name ps) ps × (has name ps ≡ true))
    ⊎ (Unnamed name ps × (has name ps ≡ false))

looked : (name : String) (ps : Params) → Looked name ps
unfolding Looked
looked name [] = inr (tt, refl)
looked name ((k, v) ∷ ps) = elim (Bool-cases (str_eq k name)) [
  | inl same ↦
      let e : k ≡ name = (eq_iff k name).0 same in rw same (inl (([], ps, rw e refl, tt), refl))
  | inr other ↦
      let differs : k ≢ name = λ e. cc (sym other ∙ (eq_iff k name).1 e) in
      elim (looked name ps) [
        | inl ((before, after, e, clear), there) ↦
            rw (other, there)
              (inl (((k, v) ∷ before, after, ap (λ l. (k, v) ∷ l) e, (differs, clear)), refl))
        | inr (clear, absent) ↦ rw (other, absent) (inr ((differs, clear), refl))
      ]
]

pub int_param-IsNumber :
    (name : String) (fallback : ℕ) (ps : Params) (n : ℕ)
    → int_param name fallback ps ≡ some (pos n)
    → IsNumber name fallback ps n
unfolding Looked
int_param-IsNumber name fallback ps n h = elim (looked name ps) [
  | inl (first, there) ↦ inl (get name ps, first, rw there at h)
  | inr (clear, absent) ↦ inr (clear, sym (fst_number fallback n (rw absent at h)))
]

-- The first parameter of a name is the one that is found.
get-IsFirst :
    (name : String) (v : Bytes) (before after : Params)
    → Unnamed name before
    → (get name (before ++ (name, v) ∷ after) ≡ v) × (has name (before ++ (name, v) ∷ after) ≡ true)
get-IsFirst name v [] after clear = rw ((eq_iff name name).1 refl) (refl, refl)
get-IsFirst name v ((k, w) ∷ before) after (differs, clear) =
    let (found, there) = get-IsFirst name v before after clear in
    rw (str_eq-false k name differs, there) (found, refl)

has-Unnamed : (name : String) (ps : Params) → Unnamed name ps → has name ps ≡ false
has-Unnamed name [] clear = refl
has-Unnamed name ((k, v) ∷ ps) (differs, clear) =
    rw (str_eq-false k name differs) (has-Unnamed name ps clear)

pub IsNumber-int_param :
    (name : String) (fallback : ℕ) (ps : Params) (n : ℕ)
    → IsNumber name fallback ps n
    → int_param name fallback ps ≡ some (pos n)
IsNumber-int_param name fallback ps n (inl (v, (before, after, e, clear), read)) =
    let (found, there) = get-IsFirst name v before after clear in rw (e, there, found) read
IsNumber-int_param name fallback ps n (inr (clear, e)) = rw (has-Unnamed name ps clear, e) refl
