-- ===== src/Engine/Normalize/Kinds/Grammar.antt =====
-- `vendorKind` of src/engine/normalize.ts stays in the grammar of the vendor kinds.
use hugin_agent.Prelude.{
  ℕ, String, Bool, true, false, ◌||◌, some, List, [], ◌∷◌, ◌++◌, str_eq, codes, ◌≡◌, ◌≢◌, refl, ap,
  ◌∙◌, ltb, ◌<>◌, arith, Bool-cases, inl, inr, length,
}
use Prim.Native.Char.{code}
use Prim.Native.String.append
use mathlib.Core.Path.{subst, sym}
use hugin_agent.Protocol.Version.{all_chars}
use hugin_agent.Jobs.Types.{EngineName, claude, codex}
use hugin_agent.Engine.EventKind.{in_grammar, after, in_vendor, any_of, core_kinds, is_event_kind}
use hugin_agent.Engine.Normalize.{Runtime, sanitize, vendor_prefix, vendor_kind, or_unknown}

pub codes-append : (s t : String) → codes (s <> t) ≡ codes s ++ codes t
unfolding ◌<>◌
codes-append String.[] t = ap codes (append.nil t)
codes-append (String.◌∷◌ c s) t =
    ap codes (append.cons c s t) ∙ ap (◌∷◌ (code c)) (codes-append s t)

pub all_chars-append :
    (p : ℕ → Bool) (xs ys : List ℕ)
    → all_chars p xs ≡ true
    → all_chars p ys ≡ true
    → all_chars p (xs ++ ys) ≡ true
unfolding all_chars
all_chars-append p [] ys h k = k
all_chars-append p (x ∷ xs) ys h k = ground (arith, all_chars-append p xs ys)

pub sanitize-in_grammar : (s : String) → all_chars in_grammar (codes (sanitize s)) ≡ true
unfolding sanitize all_chars in_grammar
sanitize-in_grammar String.[] = refl
sanitize-in_grammar (String.◌∷◌ c s) = elim (Bool-cases (in_grammar (code c))) [
  | inl e ↦ rw e (ground (arith, sanitize-in_grammar s))
  | inr e ↦ elim (Bool-cases (ltb (code c) 65536)) [
    | inl small ↦
        rw (e, small)
          (subst (λ xs. all_chars in_grammar xs ≡ true) (sym (codes-append "_" (sanitize s)))
            (ground (arith, sanitize-in_grammar s)))
    | inr big ↦
        rw (e, big)
          (subst (λ xs. all_chars in_grammar xs ≡ true) (sym (codes-append "__" (sanitize s)))
            (ground (arith, sanitize-in_grammar s)))
  ]
]

pub after-append : (p s : List ℕ) → after p (p ++ s) ≡ some s
unfolding after
after-append [] s = refl
after-append (c ∷ p) s = ground (arith, after-append p s)

-- The text is not empty.
abbrev pub NotEmpty : String → Type 0
NotEmpty s = str_eq s "" ≡ false

pub sanitize-NotEmpty : (s : String) → NotEmpty s → length (codes (sanitize s)) ≢ 0
unfolding sanitize
sanitize-NotEmpty String.[] h = absurd (ground arith)
sanitize-NotEmpty (String.◌∷◌ c s) h = elim (Bool-cases (in_grammar (code c))) [
  | inl e ↦ rw e (ground arith)
  | inr e ↦ elim (Bool-cases (ltb (code c) 65536)) [
    | inl small ↦
        rw (e, small)
          (subst (λ xs. length xs ≢ 0) (sym (codes-append "_" (sanitize s))) (ground arith))
    | inr big ↦
        rw (e, big)
          (subst (λ xs. length xs ≢ 0) (sym (codes-append "__" (sanitize s))) (ground arith))
  ]
]

pub in_vendor-some :
    (xs : List ℕ) → length xs ≢ 0 → all_chars in_grammar xs ≡ true → in_vendor (some xs) ≡ true
unfolding in_vendor
in_vendor-some [] h k = absurd (h refl)
in_vendor-some (x ∷ xs) h k = k

pub or_unknown-NotEmpty : (s : String) → NotEmpty (or_unknown s)
or_unknown-NotEmpty s = elim (Bool-cases (str_eq s "")) [ inl e ↦ rw e refl | inr e ↦ rw e e ]

pub vendor_kind-in_vendor :
    (rt : Runtime) (engine : EngineName) (suffix : String)
    → ((s : String) → NotEmpty s → NotEmpty (rt.to_lower_case s))
    → in_vendor (after (codes (vendor_prefix engine)) (codes (vendor_kind rt engine suffix))) ≡ true
unfolding vendor_kind
vendor_kind-in_vendor rt engine suffix keeps =
    let low = rt.to_lower_case (or_unknown suffix) in
    let front = codes-append (vendor_prefix engine) (sanitize low) in
    let rest = after-append (codes (vendor_prefix engine)) (codes (sanitize low)) in
    let full : length (codes (sanitize low)) ≢ 0 =
      sanitize-NotEmpty low (keeps (or_unknown suffix) (or_unknown-NotEmpty suffix)) in
    rw (front, rest) (in_vendor-some (codes (sanitize low)) full (sanitize-in_grammar low))

pub or_middle : (a b c : Bool) → b ≡ true → (a || b || c) ≡ true
or_middle a b c h = ground arith

pub or_last : (a b c : Bool) → c ≡ true → (a || b || c) ≡ true
or_last a b c h = ground arith

pub vendor_kind-is_event_kind :
    (rt : Runtime) (engine : EngineName) (suffix : String)
    → ((s : String) → NotEmpty s → NotEmpty (rt.to_lower_case s))
    → is_event_kind (vendor_kind rt engine suffix) ≡ true
unfolding is_event_kind
vendor_kind-is_event_kind rt claude suffix keeps =
    or_middle _ _ _ (vendor_kind-in_vendor rt claude suffix keeps)
vendor_kind-is_event_kind rt codex suffix keeps =
    let kind = vendor_kind rt codex suffix in
    or_last (any_of kind core_kinds) (in_vendor (after (codes "vendor.claude.") (codes kind))) _
      (vendor_kind-in_vendor rt codex suffix keeps)
