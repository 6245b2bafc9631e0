-- ===== src/Store/Rows.antt =====
-- The rows of the three tables of src/store/eventlog.ts, and the SQL clauses that its statements use:
-- a lookup by key, an UPDATE with a WHERE clause and ORDER BY seq.
use hugin_agent.Prelude.{
  ℕ, ◌≡◌, refl, String, Bool, true, not, Option, none, some, List, [], ◌∷◌, ◌++◌, leb,
  if◌then◌else◌, filter, arith,
}
use hugin_agent.Conn.Outbound.{Message, JobStatus, FinalStatus}

-- `created_at` is the text of a date.
pub record AttemptRow : Type 0 where
  pub attempt_id : String
  pub job_id : String
  pub lease_id : String
  pub agent_run_id : String
  pub status : JobStatus
  pub created_at : String
  pub last_seq : ℕ

pub record EventRow : Type 0 where
  pub attempt_id : String
  pub seq : ℕ
  pub event_id : String
  pub bytes : ℕ
  pub payload : Message

pub record StoredResult : Type 0 where
  pub attempt_id : String
  pub job_id : String
  pub lease_id : String
  pub final_status : FinalStatus
  pub result_digest : String
  pub result_size : ℕ
  pub payload : Message
  pub last_emitted_seq : ℕ

pub record ActiveJobRow : Type 0 where
  pub job_id : String
  pub attempt_id : String
  pub lease_id : String
  pub status : JobStatus
  pub last_emitted_seq : ℕ

module _ {ℓ} {A : Type ℓ} where
  -- The first row that passes the test.
  unfoldable pub find : (A → Bool) → List A → Option A
  find p [] = none
  find p (x ∷ xs) = if p x then some x else find p xs

  -- UPDATE … WHERE
  unfoldable pub modify : (A → Bool) → (A → A) → List A → List A
  modify p f [] = []
  modify p f (x ∷ xs) = (if p x then f x else x) ∷ modify p f xs

unfoldable pub insert_by_seq : EventRow → List EventRow → List EventRow
insert_by_seq e [] = e ∷ []
insert_by_seq e (x ∷ xs) = if leb e.seq x.seq then e ∷ x ∷ xs else x ∷ insert_by_seq e xs

-- ORDER BY seq
unfoldable pub order_by_seq : List EventRow → List EventRow
unfolding insert_by_seq
order_by_seq [] = []
order_by_seq (e ∷ es) = insert_by_seq e (order_by_seq es)

module _ {ℓ} {A : Type ℓ} where
  pub find-append :
      (p : A → Bool) (xs ys : List A)
      → find p (xs ++ ys) ≡ elim (find p xs) [ none ↦ find p ys | some x ↦ some x ]
  unfolding find
  find-append p [] ys = refl
  find-append p (x ∷ xs) ys = ground (arith, find-append p xs ys)

  -- A row that is found passes the test.
  pub find-test : (p : A → Bool) (xs : List A) {x : A} → find p xs ≡ some x → p x ≡ true
  unfolding find
  find-test p [] h = ground arith
  find-test p (x ∷ xs) {x = y} h = ground (arith, find-test p xs {x = y})

  -- What a filter drops is found no more.
  pub find-filter-not : (p : A → Bool) (xs : List A) → find p (filter (λ x. not (p x)) xs) ≡ none
  unfolding find
  find-filter-not p [] = refl
  find-filter-not p (x ∷ xs) = ground (arith, find-filter-not p xs)

  -- A filter that keeps every row of the key leaves the lookup as it was.
  pub find-filter_keep :
      (p q : A → Bool) (xs : List A)
      → ((x : A) → p x ≡ true → q x ≡ true)
      → find p (filter q xs) ≡ find p xs
  unfolding find
  find-filter_keep p q [] h = refl
  find-filter_keep p q (x ∷ xs) h = ground (arith, h x, find-filter_keep p q xs h)

  -- An update that leaves the key alone.
  pub find-modify :
      (p q : A → Bool) (f : A → A) (xs : List A)
      → ((x : A) → p (f x) ≡ p x)
      → find p (modify q f xs)
        ≡ elim (find p xs) [ none ↦ none | some x ↦ some (if q x then f x else x) ]
  unfolding find modify
  find-modify p q f [] h = refl
  find-modify p q f (x ∷ xs) h = ground (arith, h x, find-modify p q f xs h)
