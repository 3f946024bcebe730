-- ===== src/Auth/History/Marks.antt =====
-- Which writes to a table keep the marks on its rows.
use golang_restapi.Base.{
  ℕ, Bool, true, false, ◌≡◌, refl, ◌≢◌, ◌||◌, List, [], ◌∷◌, ◌==◌, nat_eq, arith, ap, sym, ◌∙◌,
}
use golang_restapi.Base.Lists.{All, any, update_where, All-update_where, any-update_where}
use golang_restapi.Postgres.Rows.{get_one, one}
use golang_restapi.Postgres.Rows.Laws.{get_one-All, get_one-any}

-- The table has a row with the id, and each row with the id satisfies the test.
module _ {A : Type 0} (id_of : A → ℕ) (test : A → Bool) where
  abbrev pub IsMarked : ℕ → List A → Type 0
  IsMarked id rows =
      (any (λ r. id_of r == id) rows ≡ true) × All (λ r. id_of r ≡ id → test r ≡ true) rows

  -- An update keeps a mark if it keeps ids, and marks what it touches or what was marked.
  pub IsMarked-update :
      (query : A → Bool) (change : A → A) (id : ℕ) (rows : List A)
      → ((r : A) → id_of (change r) ≡ id_of r)
      → ((r : A) → query r ≡ true → id_of r ≡ id → test r ≡ true → test (change r) ≡ true)
      → IsMarked id rows
      → IsMarked id (update_where query change rows)
  IsMarked-update query change id rows same mark (has, each) = (
    any-update_where query change (λ r. id_of r == id) rows (λ r. ap (λ k. k == id) (same r)) ∙ has,
    All-update_where query change (λ r. id_of r ≡ id → test r ≡ true) rows
        (λ r hit p e. mark r hit (sym (same r) ∙ e) (p (sym (same r) ∙ e))) each,
  )

  -- A row with another id keeps every mark.
  pub IsMarked-cons :
      (new : A) (id : ℕ) (rows : List A)
      → id_of new ≢ id
      → IsMarked id rows
      → IsMarked id (new ∷ rows)
  IsMarked-cons new id rows ne (has, each) = (ground arith, ((λ e. absurd (ne e)), each))

  -- A row that a query returned carries the mark.
  pub IsMarked-get_one :
      (query : A → Bool) (id : ℕ) (rows : List A) (r : A)
      → IsMarked id rows
      → get_one query rows ≡ one r
      → id_of r ≡ id
      → test r ≡ true
  IsMarked-get_one query id rows r (_, each) =
      get_one-All query (λ r. id_of r ≡ id → test r ≡ true) rows r each

module _ {A : Type 0} (id_of : A → ℕ) where
  -- An id that is free in the table is the id of none of its rows.
  pub ne_of_free :
      (key : ℕ) (id : ℕ) (rows : List A)
      → any (λ r. id_of r == key) rows ≡ false
      → any (λ r. id_of r == id) rows ≡ true
      → key ≢ id
  ne_of_free key id rows free has e = cc (ap (λ k. any (λ r. id_of r == k) rows) e)

pub any-or_left :
    {A : Type 0} (p q : A → Bool) (rows : List A)
    → any (λ r. p r || q r) rows ≡ false
    → any p rows ≡ false
any-or_left p q [] h = refl
any-or_left p q (r ∷ rows) h = ground (arith, any-or_left p q rows)

module _ {A : Type 0} (id_of : A → ℕ) (test : A → Bool) (change : A → A) (id : ℕ) where
  marked_rows :
      (rows : List A)
      → ((r : A) → test (change r) ≡ true)
      → All (λ r. id_of r ≡ id → test r ≡ true) (update_where (λ r. id_of r == id) change rows)
  unfolding update_where
  marked_rows [] mark = tt
  marked_rows (r ∷ rows) mark = (λ e. ground (arith, mark r), marked_rows rows mark)

  -- An update that marks the rows with an id leaves a mark, if a query found a row with the id.
  pub IsMarked-made :
      (query : A → Bool) (rows : List A) (r : A)
      → ((r : A) → id_of (change r) ≡ id_of r)
      → ((r : A) → test (change r) ≡ true)
      → get_one query rows ≡ one r
      → id_of r ≡ id
      → IsMarked id_of test id (update_where (λ r. id_of r == id) change rows)
  IsMarked-made query rows r same mark found e = (
    any-update_where (λ r. id_of r == id) change (λ r. id_of r == id) rows
          (λ r. ap (λ k. k == id) (same r))
        ∙ get_one-any query (λ r. id_of r == id) rows r found (ground arith),
    marked_rows rows mark,
  )
