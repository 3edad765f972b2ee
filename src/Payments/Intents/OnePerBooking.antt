-- ===== src/Payments/Intents/OnePerBooking.antt =====
-- The intents of a booking.
use pee_rahat.Prelude.{
  ℕ, ◌≡◌, ◌≢◌, refl, sym, subst, Text, Option, none, some, ◌∷◌, Bool-cases, Option-cases,
  Result-cases, inl, inr, ◌⊎◌, fresh_id, find, find-cons, find_first, find-find_first-none, arith,
  ◌==◌,
}
use pee_rahat.Store.{PaymentItemType, Booking, PaymentIntent, Db}
use pee_rahat.Bookings.Lifecycle.{intent_of, belongs_to}
use pee_rahat.Payments.PromptPay.{build_prompt_pay_payload}
use pee_rahat.Payments.Intents.{
  new_intent, insert_intent, insert_for, existing_or_new, is_payable, create_for_item,
  create_intent,
}

-- What the calls return and leave, if they create anything.
insert_for_lem :
    (now : ℕ) (merchant : Text) (payer : ℕ) (item : PaymentItemType) (k s : Option ℕ) (amount : ℕ)
    (db : Db)
    → let r = insert_for now merchant payer item k s amount db in
      (r.1 ≡ db)
      ⊎ (payload : Text) × (r.1 ≡ record db {
        intents = (fresh_id db.intents, new_intent now payer item k s amount payload) ∷ db.intents;
      })
unfolding insert_intent
insert_for_lem now merchant payer item k s amount db =
    elim (Result-cases (build_prompt_pay_payload merchant amount)) [
      | inr (e, stop) ↦ inl (ground arith)
      | inl (payload, go) ↦ inr (payload, ground arith)
    ]

-- A booking has at most one intent.
abbrev pub HasOneIntent : Db → Type 0
HasOneIntent db =
    (i j k : ℕ) (a b : PaymentIntent)
    → find i db.intents ≡ some a
    → find j db.intents ≡ some b
    → a.booking_id ≡ some k
    → b.booking_id ≡ some k
    → i ≡ j

-- An intent that is added for nothing that another one is for.
HasOneIntent-cons :
    (id : ℕ) (x : PaymentIntent) (db : Db)
    → ((k j : ℕ) (b : PaymentIntent)
        → x.booking_id ≡ some k
        → find j db.intents ≡ some b
        → b.booking_id ≢ some k)
    → HasOneIntent db
    → HasOneIntent (record db { intents = (id, x) ∷ db.intents })
HasOneIntent-cons id x db new h i j k a b fa fb ea eb = elim (find-cons id i x db.intents fa) [
  | inl (at_i, is_a) ↦ elim (find-cons id j x db.intents fb) [
    | inl (at_j, is_b) ↦ ground arith
    | inr (off_j, there) ↦ absurd (new k j b (ground arith) there eb)
  ]
  | inr (off_i, there_a) ↦ elim (find-cons id j x db.intents fb) [
    | inl (at_j, is_b) ↦ absurd (new k i a (ground arith) there_a ea)
    | inr (off_j, there) ↦ h i j k a b there_a there ea eb
  ]
]

insert_for-HasOneIntent :
    (now : ℕ) (merchant : Text) (payer : ℕ) (item : PaymentItemType) (k s : Option ℕ) (amount : ℕ)
    (db : Db)
    → ((n j : ℕ) (b : PaymentIntent)
        → k ≡ some n
        → find j db.intents ≡ some b
        → b.booking_id ≢ some n)
    → HasOneIntent db
    → HasOneIntent (insert_for now merchant payer item k s amount db).1
insert_for-HasOneIntent now merchant payer item k s amount db new h =
    elim (insert_for_lem now merchant payer item k s amount db) [
      | inl same ↦ subst HasOneIntent (sym same) h
      | inr (payload, e) ↦ subst HasOneIntent (sym e) (
          HasOneIntent-cons (fresh_id db.intents) (new_intent now payer item k s amount payload) db
            new h)
    ]

existing_or_new-HasOneIntent :
    (now : ℕ) (merchant : Text) (payer k : ℕ) (b : Booking) (db : Db)
    (existing : Option (ℕ × PaymentIntent))
    → intent_of db k ≡ existing
    → HasOneIntent db
    → HasOneIntent (existing_or_new now merchant payer k b existing db).1
existing_or_new-HasOneIntent now merchant payer k b db (some x) e h = h
existing_or_new-HasOneIntent now merchant payer k b db none e h =
    insert_for-HasOneIntent now merchant payer PaymentItemType.booking (some k) none b.amount_thb db
      (λ n j i same there linked.
        let missed = find-find_first-none (λ _ x. belongs_to k x) j db.intents e there in
        ground arith)
      h

unchanged : (db' db : Db) → db' ≡ db → HasOneIntent db → HasOneIntent db'
unchanged db' db same h = subst HasOneIntent (sym same) h

create_for_item-HasOneIntent :
    (now : ℕ) (merchant : Text) (payer : ℕ) (item : PaymentItemType) (id : ℕ) (db : Db)
    → HasOneIntent db
    → HasOneIntent (create_for_item now merchant payer item id db).1
unfolding create_for_item
create_for_item-HasOneIntent now merchant payer PaymentItemType.booking k db h =
    let m = create_for_item now merchant payer PaymentItemType.booking k in
    elim (Option-cases (find k db.bookings)) [
      | inl missing ↦ unchanged (m db).1 db (ground arith) h
      | inr (b, found) ↦ elim (Bool-cases (b.student_id == payer)) [
        | inr other ↦ unchanged (m db).1 db (ground arith) h
        | inl own ↦ elim (Bool-cases (is_payable b)) [
          | inr closed ↦ unchanged (m db).1 db (ground arith) h
          | inl payable ↦
              unchanged (m db).1 (existing_or_new now merchant payer k b (intent_of db k) db).1
                (ground arith)
                (existing_or_new-HasOneIntent now merchant payer k b db (intent_of db k) refl h)
        ]
      ]
    ]
create_for_item-HasOneIntent now merchant payer PaymentItemType.sheet id db h =
    let m = create_for_item now merchant payer PaymentItemType.sheet id in
    elim (Option-cases (find id db.sheets)) [
      | inl missing ↦ unchanged (m db).1 db (ground arith) h
      | inr (s, found) ↦ elim (Bool-cases s.is_suspended) [
        | inl suspended ↦ unchanged (m db).1 db (ground arith) h
        | inr offered ↦
            let new =
              insert_for now merchant payer PaymentItemType.sheet none (some id) s.price_thb in
            unchanged (m db).1 (new db).1 (ground arith) (
              insert_for-HasOneIntent now merchant payer PaymentItemType.sheet none (some id)
                s.price_thb db (λ n j b same there linked. cc) h)
      ]
    ]

-- If no booking has two intents, none has after `createIntent`, whoever calls it for whatever item
-- and whether or not it throws.
pub create_intent-HasOneIntent :
    (now : ℕ) (merchant : Text) (supabase_id : ℕ) (item : PaymentItemType) (item_id : ℕ) (db : Db)
    → HasOneIntent db
    → HasOneIntent (create_intent now merchant supabase_id item item_id db).1
unfolding create_intent
create_intent-HasOneIntent now merchant supabase_id item item_id db h =
    let m = create_intent now merchant supabase_id item item_id in
    elim (Option-cases (find_first (λ k u. u.supabase_id == supabase_id) db.users)) [
      | inl unknown ↦ unchanged (m db).1 db (ground arith) h
      | inr (user, known) ↦
          unchanged (m db).1 (create_for_item now merchant user.0 item item_id db).1 (ground arith)
            (create_for_item-HasOneIntent now merchant user.0 item item_id db h)
    ]
