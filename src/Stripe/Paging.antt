-- ===== src/Stripe/Paging.antt =====
-- examples/stripe-refund/contract.ts: how many pages `observe` asks for, and when it gets through.
use corrobo.Base.{
  ℕ, zero, suc, ◌+◌, ◌*◌, ◌≤◌, ◌≡◌, refl, ap, ◌∙◌, String, true, false, not, ◌||◌, Option, none,
  some, is_some, List, [], ◌∷◌, ◌++◌, length, arith, inl, inr, Bool-cases,
}
use corrobo.Stripe.Client.{RefundIntent, RefundLike, Reply, replied, raised, Page, StripeClientLike}
use corrobo.Stripe.Contract.{
  is_labeled, find, cursor, is_empty, last_id, Found, turn_page, read_pages, Transport, delivered,
  undelivered, responded, rejected, observe_listed, observe, max_list_pages,
}
use corrobo.Stripe.Listing.{ListLaws, Lists, last_exists, cursor-last_id, go_on_means}
use corrobo.Stripe.Findings.{is_listed}

module _ {S : Type 0} (client : StripeClientLike S) (intent : RefundIntent) (id : String)
    (calls : S → ℕ)
    (counted : (charge : String) (limit : Option ℕ) (after : Option String) (s : S)
      → calls (client.list_page charge limit after s).1 ≡ suc (calls s)) where
  turn_page_bounded :
      (left : ℕ) (before : Option RefundLike)
      (next : Option RefundLike → Option String → S → Reply Found × S)
      → ((b : Option RefundLike) (a : Option String) (t : S)
          → calls (next b a t).1 ≤ calls t + left)
      → (o : Reply Page × S) → calls (turn_page client intent id before next o).1 ≤ calls o.1 + left
  turn_page_bounded left before next bounded (raised e, s) = omega arith
  turn_page_bounded left before next bounded (replied page, s) =
      elim (Bool-cases (
        is_some (find (is_labeled id) page.data_of)
        || not page.has_more
        || is_empty page.data_of)) [ inl b ↦ rw b (omega arith) | inr b ↦ rw b (bounded _ _ s) ]

  read_pages_bounded :
      (left : ℕ) (before : Option RefundLike) (after : Option String) (s : S)
      → calls (read_pages client intent id left before after s).1 ≤ calls s + left
  unfolding read_pages
  read_pages_bounded zero before after s = omega arith
  read_pages_bounded (suc left) before after s =
      let more = counted intent.charge_id (some 100) (cursor after) s in
      let rest =
        turn_page_bounded left before (read_pages client intent id left) (read_pages_bounded left)
          (client.list_page intent.charge_id (some 100) (cursor after) s) in
      omega (arith, more, rest)

  observe_listed_calls :
      (now : ℕ) (t : Transport) (p : Reply Found × S)
      → calls (observe_listed client intent id now t p).1 ≡ calls p.1
  observe_listed_calls now t (raised e, s) = refl
  observe_listed_calls now t (replied f, s) = refl

  listed_bounded :
      (now : ℕ) (t : Transport) (s : S)
      → calls
          (observe_listed client intent id now t
            (read_pages client intent id max_list_pages none none s)).1
        ≤ calls s + 50
  listed_bounded now t s =
      rw (observe_listed_calls now t (read_pages client intent id max_list_pages none none s))
        (read_pages_bounded max_list_pages none none s)

-- Looking through the pages takes at most fifty calls of the list endpoint, even if every page says that
-- there are more.
pub observe_bounded :
    {S : Type 0} (client : StripeClientLike S) (intent : RefundIntent) (id : String) (calls : S → ℕ)
    → ((charge : String) (limit : Option ℕ) (after : Option String) (s : S)
        → calls (client.list_page charge limit after s).1 ≡ suc (calls s))
    → (now : ℕ) (t : Transport) (s : S) → is_listed t ≡ true
    → calls (observe client intent id now t s).1 ≤ calls s + 50
unfolding observe
observe_bounded client intent id calls counted now (delivered (responded r st)) s listed =
    absurd (ground arith)
observe_bounded client intent id calls counted now (delivered (rejected code message)) s listed =
    listed_bounded client intent id calls counted now (delivered (rejected code message)) s
observe_bounded client intent id calls counted now undelivered s listed =
    listed_bounded client intent id calls counted now undelivered s

-- A client whose list calls are answered.
abbrev pub Answers : {S : Type 0} → StripeClientLike S → Type 0
Answers {S} client =
    (charge : String) (limit : Option ℕ) (after : Option String) (s : S)
    → (page : Page) × ((client.list_page charge limit after s).0 ≡ replied page)

abbrev pub IsReplied : {S A : Type 0} → Reply A × S → Type 0
IsReplied {S} {A} (raised e, s) = ⊥
IsReplied {S} {A} (replied a, s) = Unit

length-++ : (xs ys : List RefundLike) → length (xs ++ ys) ≡ length xs + length ys
length-++ [] ys = omega arith
length-++ (x ∷ xs) ys = omega (arith, length-++ xs ys)

nonempty_length : (xs : List RefundLike) → is_empty xs ≡ false → 1 ≤ length xs
nonempty_length [] h = absurd (ground arith)
nonempty_length (x ∷ xs) h = omega arith

module _ {S : Type 0} (client : StripeClientLike S) (laws : ListLaws client)
    (answers : Answers client) (intent : RefundIntent) (id : String) where
  turn_page-IsReplied :
      (left : ℕ) (before : Option RefundLike) (after : Option String) (s : S)
      (next : Option RefundLike → Option String → S → Reply Found × S)
      → ((b : Option RefundLike) (a : Option String) (t : S)
          → 1 ≤ left
          → length (laws.following t intent.charge_id (cursor a)) ≤ 100 * left
          → IsReplied (next b a t))
      → length (laws.following s intent.charge_id (cursor after)) ≤ 100 * suc left
      → (o : Reply Page × S) → (page : Page) × (o.0 ≡ replied page)
      → Lists laws.following intent.charge_id 100 (cursor after) s o
      → IsReplied (turn_page client intent id before next o)
  turn_page-IsReplied left before after s next goes fits (raised e, s') (page, answered) lists =
      absurd (ground arith)
  turn_page-IsReplied left before after s next goes fits (replied page, s') answered
        (same, (rest, is)) =
      let (split, no_more, none_left, full, last) = is in
      let xs = page.data_of in
      elim (Bool-cases (is_some (find (is_labeled id) xs) || not page.has_more || is_empty xs)) [
        | inl b ↦ rw b tt
        | inr b ↦
            let (lacking, more, filled) =
              go_on_means (find (is_labeled id) xs) page.has_more (is_empty xs) b in
            let (r, r_last) = last_exists xs filled in
            let (truthy, follows) = last r r_last in
            let (whole, some_left) = full more in
            let onward : laws.following s' intent.charge_id (cursor (last_id xs)) ≡ rest =
              ap (λ f. f intent.charge_id (cursor (last_id xs))) same
              ∙ ap (laws.following s intent.charge_id) (cursor-last_id xs r r_last truthy)
              ∙ follows in
            let sum = ap length split ∙ length-++ xs rest in
            rw b (
              goes _ (last_id xs) s' (omega (arith, sum, whole, nonempty_length rest some_left))
                (omega (arith, sum, whole, ap length onward)))
      ]

  read_pages-IsReplied :
      (left : ℕ) (before : Option RefundLike) (after : Option String) (s : S)
      → 1 ≤ left
      → length (laws.following s intent.charge_id (cursor after)) ≤ 100 * left
      → IsReplied (read_pages client intent id left before after s)
  unfolding read_pages
  read_pages-IsReplied zero before after s some_left fits = absurd (omega arith)
  read_pages-IsReplied (suc left) before after s some_left fits =
      turn_page-IsReplied left before after s (read_pages client intent id left)
        (read_pages-IsReplied left) fits
        (client.list_page intent.charge_id (some 100) (cursor after) s)
        (answers intent.charge_id (some 100) (cursor after) s)
        (laws.list_page_lem intent.charge_id 100 (cursor after) s)

  observe_listed-IsReplied :
      (now : ℕ) (t : Transport) (p : Reply Found × S)
      → IsReplied p
      → IsReplied (observe_listed client intent id now t p)
  observe_listed-IsReplied now t (raised e, s) h = h
  observe_listed-IsReplied now t (replied f, s) h = tt

-- `observe` gives an answer, and does not give up, if the client answers every list call as documented
-- and the charge has at most 5000 refunds.
pub observe-IsReplied :
    {S : Type 0} (client : StripeClientLike S) (laws : ListLaws client)
    → Answers client
    → (intent : RefundIntent) (id : String) (now : ℕ) (t : Transport) (s : S) → is_listed t ≡ true
    → length (laws.following s intent.charge_id none) ≤ 5000
    → IsReplied (observe client intent id now t s)
unfolding observe
observe-IsReplied client laws answers intent id now (delivered (responded r st)) s listed fits =
    absurd (ground arith)
observe-IsReplied client laws answers intent id now (delivered (rejected code message)) s listed
      fits =
    observe_listed-IsReplied client laws answers intent id now (delivered (rejected code message)) _
      (read_pages-IsReplied client laws answers intent id max_list_pages none none s (omega arith)
        fits)
observe-IsReplied client laws answers intent id now undelivered s listed fits =
    observe_listed-IsReplied client laws answers intent id now undelivered _ (
      read_pages-IsReplied client laws answers intent id max_list_pages none none s (omega arith)
        fits)
