-- ===== src/Stripe/Listing.antt =====
-- examples/stripe-refund/contract.ts: the loop over the pages of a charge's refunds.
use corrobo.Base.{
  ℕ, zero, suc, ◌≡◌, refl, sym, ap, subst, get_or, ◌∙◌, String, Bool, true, false, not, ◌||◌,
  Option, none, some, is_some, or_else, List, [], ◌∷◌, ◌++◌, length, get_last?, arith, ◌⊎◌, inl,
  inr, str_eq, Bool-cases,
}
use corrobo.Stripe.Client.{RefundIntent, RefundLike, Reply, replied, raised, Page, StripeClientLike}
use corrobo.Stripe.Contract.{
  is_labeled, is_unlabeled, find, cursor, is_empty, last_id, Found, read_pages, turn_page,
}

abbrev pub Lacks : (RefundLike → Bool) → List RefundLike → Type 0
Lacks p [] = Unit
Lacks p (r ∷ rs) = (p r ≡ false) × Lacks p rs

abbrev pub Has : RefundLike → List RefundLike → Type 0
Has r [] = ⊥
Has r (x ∷ xs) = (r ≡ x) ⊎ Has r xs

-- Documented behaviour of the list endpoint, by the refunds of a charge that come after a cursor: a
-- page holds the first of them, says whether there are more, and is full if there are.
abbrev pub Following : Type 0
Following = String → Option String → List RefundLike

module _ {S : Type 0} (following : S → Following) where
  abbrev pub IsPage : String → ℕ → Option String → S → Page → List RefundLike → Type 0
  IsPage charge limit after s page rest =
      (following s charge after ≡ page.data_of ++ rest)
      × (page.has_more ≡ false → rest ≡ [])
      × (is_empty page.data_of ≡ true → rest ≡ [])
      × (page.has_more ≡ true → (length page.data_of ≡ limit) × (is_empty rest ≡ false))
      × ((r : RefundLike)
          → get_last? page.data_of ≡ some r
          → (str_eq r.id "" ≡ false) × (following s charge (some r.id) ≡ rest))

  abbrev pub Lists : String → ℕ → Option String → S → Reply Page × S → Type 0
  Lists charge limit after s (raised e, s') = following s' ≡ following s
  Lists charge limit after s (replied page, s') =
      (following s' ≡ following s)
      × ((rest : List RefundLike) × IsPage charge limit after s page rest)

pub record ListLaws {S : Type 0} (client : StripeClientLike S) : Type 0 where
  pub following : S → Following
  pub list_page_lem :
      (charge : String) (limit : ℕ) (after : Option String) (s : S)
      → Lists following charge limit after s (client.list_page charge (some limit) after s)

Lacks-++ :
    (p : RefundLike → Bool) (xs ys : List RefundLike) → Lacks p xs → Lacks p ys → Lacks p (xs ++ ys)
Lacks-++ p [] ys hx hy = hy
Lacks-++ p (x ∷ xs) ys (h, hx) hy = (h, Lacks-++ p xs ys hx hy)

Has-left : (r : RefundLike) (xs ys : List RefundLike) → Has r xs → Has r (xs ++ ys)
Has-left r [] ys h = elim h [ ]
Has-left r (x ∷ xs) ys (inl e) = inl e
Has-left r (x ∷ xs) ys (inr h) = inr (Has-left r xs ys h)

Has-right : (r : RefundLike) (xs ys : List RefundLike) → Has r ys → Has r (xs ++ ys)
Has-right r [] ys h = h
Has-right r (x ∷ xs) ys h = inr (Has-right r xs ys h)

find-none : (p : RefundLike → Bool) (xs : List RefundLike) → find p xs ≡ none → Lacks p xs
find-none p [] e = tt
find-none p (x ∷ xs) e = elim (Bool-cases (p x)) [
  | inl h ↦ absurd (ground arith)
  | inr h ↦ (h, find-none p xs (ground arith))
]

same_found :
    (xs : List RefundLike) (p : RefundLike → Bool) (x r : RefundLike)
    → p x ≡ true
    → some x ≡ some r
    → (p r ≡ true) × Has r (x ∷ xs)
same_found xs p x r h e =
    let same : x ≡ r = ap (λ o. get_or o x) e in (subst (λ y. p y ≡ true) same h, inl (sym same))

find-some :
    (p : RefundLike → Bool) (xs : List RefundLike) (r : RefundLike)
    → find p xs ≡ some r
    → (p r ≡ true) × Has r xs
find-some p [] r e = absurd (ground arith)
find-some p (x ∷ xs) r e = elim (Bool-cases (p x)) [
  | inl h ↦ same_found xs p x r h (ground arith)
  | inr h ↦ let (is, has) = find-some p xs r (ground arith) in (is, inr has)
]

pub last_exists :
    (xs : List RefundLike) → is_empty xs ≡ false → (r : RefundLike) × (get_last? xs ≡ some r)
last_exists [] h = absurd (ground arith)
last_exists (x ∷ []) h = (x, refl)
last_exists (x ∷ y ∷ ys) h = last_exists (y ∷ ys) refl

pub cursor-last_id :
    (xs : List RefundLike) (r : RefundLike)
    → get_last? xs ≡ some r
    → str_eq r.id "" ≡ false
    → cursor (last_id xs) ≡ some r.id
cursor-last_id xs r h truthy = ground arith

-- What the pages from `rs` on say, after `before` was seen.
abbrev pub Says :
    RefundIntent
    → String
    → Option RefundLike
    → List RefundLike
    → Option RefundLike
    → Option RefundLike
    → Type 0
Says intent id before rs (some r) unlabeled = (is_labeled id r ≡ true) × Has r rs
Says intent id before rs none unlabeled =
    Lacks (is_labeled id) rs
    × (unlabeled ≡ none → (before ≡ none) × Lacks (is_unlabeled intent.amount_cents) rs)

stop_means_end :
    (o : Option RefundLike) (more empty : Bool) (rest : List RefundLike)
    → (is_some o || not more || empty) ≡ true
    → (more ≡ false → rest ≡ [])
    → (empty ≡ true → rest ≡ [])
    → is_some o ≡ false
    → rest ≡ []
stop_means_end (some r) more empty rest b no_more none_left e = absurd (ground arith)
stop_means_end none false empty rest b no_more none_left e = no_more refl
stop_means_end none true empty rest b no_more none_left e = none_left b

pub go_on_means :
    (o : Option RefundLike) (more empty : Bool)
    → (is_some o || not more || empty) ≡ false
    → (o ≡ none) × (more ≡ true) × (empty ≡ false)
go_on_means o more empty b = ground arith

module _ {S : Type 0} (client : StripeClientLike S) (laws : ListLaws client) (intent : RefundIntent)
    (id : String) where
  abbrev pub Reads : Option RefundLike → List RefundLike → Reply Found × S → Type 0
  Reads before rs (raised e, s) = Unit
  Reads before rs (replied f, s) = Says intent id before rs f.ours f.unlabeled_same_amount

  -- What one page tells, whatever was seen before.
  abbrev Tells : Option RefundLike → List RefundLike → Option RefundLike → Type 0
  Tells before xs unlabeled =
      unlabeled ≡ none → (before ≡ none) × Lacks (is_unlabeled intent.amount_cents) xs

  page-Tells :
      (before : Option RefundLike) (xs : List RefundLike)
      → Tells before xs (or_else before (find (is_unlabeled intent.amount_cents) xs))
  page-Tells none xs e = (refl, find-none (is_unlabeled intent.amount_cents) xs e)
  page-Tells (some r) xs e = absurd (ground arith)

  Says-more :
      (before seen unlabeled ours : Option RefundLike) (xs rest : List RefundLike)
      → Lacks (is_labeled id) xs
      → Tells before xs seen
      → Says intent id seen rest ours unlabeled
      → Says intent id before (xs ++ rest) ours unlabeled
  Says-more before seen unlabeled (some r) xs rest lacks tells (is, has) =
      (is, Has-right r xs rest has)
  Says-more before seen unlabeled none xs rest lacks tells (none_labeled, none_unlabeled) = (
    Lacks-++ (is_labeled id) xs rest lacks none_labeled,
    λ e.
        let (seen_none, rest_lacks) = none_unlabeled e in
        let (before_none, page_lacks) = tells seen_none in
        (before_none, Lacks-++ (is_unlabeled intent.amount_cents) xs rest page_lacks rest_lacks),
  )

  Reads-more :
      (before seen : Option RefundLike) (xs rest : List RefundLike) (o : Reply Found × S)
      → Lacks (is_labeled id) xs
      → Tells before xs seen
      → Reads seen rest o
      → Reads before (xs ++ rest) o
  Reads-more before seen xs rest (raised e, s) lacks tells h = tt
  Reads-more before seen xs rest (replied f, s) lacks tells h =
      Says-more before seen f.unlabeled_same_amount f.ours xs rest lacks tells h

  -- The loop stops at a page: this operation's refund is on it, or there are no more.
  Says-stop :
      (before seen ours : Option RefundLike) (xs rest : List RefundLike)
      → find (is_labeled id) xs ≡ ours
      → Tells before xs seen
      → (is_some ours ≡ false → rest ≡ [])
      → Says intent id before (xs ++ rest) ours seen
  Says-stop before seen (some r) xs rest found tells end =
      let (is, has) = find-some (is_labeled id) xs r found in (is, Has-left r xs rest has)
  Says-stop before seen none xs rest found tells end = rw (end refl) (
    Lacks-++ (is_labeled id) xs [] (find-none (is_labeled id) xs found) tt,
    λ e.
        let (before_none, lacks) = tells e in
        (before_none, Lacks-++ (is_unlabeled intent.amount_cents) xs [] lacks tt),
  )

  turn_page-Reads :
      (before : Option RefundLike) (after : Option String) (s : S)
      (next : Option RefundLike → Option String → S → Reply Found × S)
      → ((b : Option RefundLike) (a : Option String) (t : S)
          → Reads b (laws.following t intent.charge_id (cursor a)) (next b a t))
      → (o : Reply Page × S) → Lists laws.following intent.charge_id 100 (cursor after) s o
      → Reads before
          (laws.following s intent.charge_id (cursor after))
          (turn_page client intent id before next o)
  turn_page-Reads before after s next reads (raised e, s') same = tt
  turn_page-Reads before after s next reads (replied page, s') (same, (rest, is)) =
      let (split, no_more, none_left, full, last) = is in
      let xs = page.data_of in
      let seen = or_else before (find (is_unlabeled intent.amount_cents) xs) in
      rw split
        elim (Bool-cases (is_some (find (is_labeled id) xs) || not page.has_more || is_empty xs)) [
          | inl b ↦ rw b (
              Says-stop before seen (find (is_labeled id) xs) xs rest refl (page-Tells before xs) (
                stop_means_end (find (is_labeled id) xs) page.has_more (is_empty xs) rest b no_more
                  none_left))
          | inr b ↦
              let (lacking, more, filled) =
                go_on_means (find (is_labeled id) xs) page.has_more (is_empty xs) b in
              let (r, r_last) = last_exists xs filled in
              let (truthy, follows) = last r r_last in
              rw b (
                Reads-more before seen xs rest _ (find-none (is_labeled id) xs lacking)
                  (page-Tells before xs)
                  (subst (λ zs. Reads seen zs (next seen (last_id xs) s'))
                    (ap (λ f. f intent.charge_id (cursor (last_id xs))) same
                      ∙ ap (laws.following s intent.charge_id) (cursor-last_id xs r r_last truthy)
                      ∙ follows)
                    (reads seen (last_id xs) s')))
        ]

  pub read_pages-Reads :
      (left : ℕ) (before : Option RefundLike) (after : Option String) (s : S)
      → Reads before
          (laws.following s intent.charge_id (cursor after))
          (read_pages client intent id left before after s)
  unfolding read_pages
  read_pages-Reads zero before after s = tt
  read_pages-Reads (suc left) before after s =
      turn_page-Reads before after s (read_pages client intent id left) (read_pages-Reads left) _
        (laws.list_page_lem intent.charge_id 100 (cursor after) s)
