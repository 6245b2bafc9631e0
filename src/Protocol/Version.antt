-- ===== src/Protocol/Version.antt =====
-- Version texts and `negotiateVersion`: protocol/v1/index.ts, with the `SemVer` pattern of
-- protocol/v1/messages.ts. A text is the list of its character codes.
use hugin_agent.Prelude.{
  ℕ, zero, suc, ◌≡◌, ◌↔◌, refl, Bool, true, false, not, ◌&&◌, ◌||◌, Option, none, some, List, [],
  ◌∷◌, leb, ◌==◌, if◌then◌else◌, length, filter, arith,
}
use hugin_agent.Store.Rows.{find}

-- `===` on texts.
unfoldable pub codes_eq : List ℕ → List ℕ → Bool
codes_eq [] [] = true
codes_eq [] (d ∷ ds) = false
codes_eq (c ∷ cs) [] = false
codes_eq (c ∷ cs) (d ∷ ds) = c == d && codes_eq cs ds

pub codes_eq_iff : (a b : List ℕ) → (codes_eq a b ≡ true) ↔ (a ≡ b)
unfolding codes_eq
codes_eq_iff [] [] = (λ h. refl, λ h. refl)
codes_eq_iff [] (d ∷ ds) = (λ h. cc, λ h. cc)
codes_eq_iff (c ∷ cs) [] = (λ h. cc, λ h. cc)
codes_eq_iff (c ∷ cs) (d ∷ ds) = ground (arith, codes_eq_iff cs ds)

abbrev is_digit : ℕ → Bool
is_digit c = leb b'0' c && leb c b'9'

abbrev is_pre_char : ℕ → Bool
is_pre_char c =
    is_digit c
    || ((leb b'A' c && leb c b'Z') || ((leb b'a' c && leb c b'z') || (c == b'.' || c == b'-')))

unfoldable pub all_chars : (ℕ → Bool) → List ℕ → Bool
all_chars p [] = true
all_chars p (c ∷ cs) = p c && all_chars p cs

-- `(?:-[0-9A-Za-z.-]+)?$`
unfoldable pub pre_part : List ℕ → Bool
unfolding all_chars
pre_part [] = true
pre_part (c ∷ []) = false
pre_part (c ∷ d ∷ ds) = c == b'-' && all_chars is_pre_char (d ∷ ds)

-- The rest of the pattern `\d+\.\d+\.\d+…`: `dots` separators are to come, and `seen` says that the
-- current run of digits is not empty.
unfoldable pub version_part : ℕ → Bool → List ℕ → Bool
unfolding pre_part
version_part dots seen [] = if dots == 0 then seen else false
version_part zero seen (c ∷ cs) =
    let more = version_part zero true cs in if is_digit c then more else seen && pre_part (c ∷ cs)
version_part (suc dots) seen (c ∷ cs) =
    let more = version_part (suc dots) true cs in
    let next = version_part dots false cs in
    if is_digit c then more else (seen && c == b'.') && next

-- `SemVer`: the pattern, and at most 64 characters.
unfoldable pub is_sem_ver : List ℕ → Bool
unfolding version_part
is_sem_ver v = version_part 2 false v && leb (length v) 64

unfoldable pub until_char : ℕ → List ℕ → List ℕ
until_char stop [] = []
until_char stop (c ∷ cs) = let rest = until_char stop cs in if c == stop then [] else c ∷ rest

-- `v.split(".")[0]`
unfoldable pub major_of : List ℕ → List ℕ
unfolding until_char
major_of v = until_char b'.' v

-- `v.split("-")[1] ?? null`: what stands between the first dash and the second.
unfoldable pub pre_of : List ℕ → Option (List ℕ)
unfolding until_char
pre_of [] = none
pre_of (c ∷ cs) = let rest = pre_of cs in if c == b'-' then some (until_char b'-' cs) else rest

-- The truth value of `preOf(v)`: neither null nor the empty text.
abbrev pub has_pre : List ℕ → Bool
has_pre v = elim (pre_of v) [ none ↦ false | some p ↦ elim p [ [] ↦ false | c ∷ cs ↦ true ] ]

pub data Negotiated : Type 0 where
  ok : List ℕ → Negotiated
  malformed no_exact no_major : Negotiated

abbrev or_reason : Option (List ℕ) → Negotiated → Negotiated
or_reason none reason = reason
or_reason (some v) reason = ok v

unfoldable pub negotiate_version : List ℕ → List (List ℕ) → Negotiated
negotiate_version agent_version server_supported =
    let supported = filter is_sem_ver server_supported in
    if not (is_sem_ver agent_version)
    then malformed
    else if has_pre agent_version
    then or_reason (find (λ v. codes_eq v agent_version) supported) no_exact
    else or_reason
        (find (λ v. not (has_pre v) && codes_eq (major_of v) (major_of agent_version)) supported)
        no_major
