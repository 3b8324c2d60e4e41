-- ===== src/Worker/QueueConsumer/Settling.antt =====
-- apps/worker/queue-consumer.ts: what `processNext` does with the messages of a SQLite queue.
use railfog.Prelude.{
  ◌<◌, leb-false→lt, leb→le, ℕ, suc, ◌≤◌, ◌≡◌, ◌⊎◌, inl, inr, refl, ◌∙◌, ap, Bool, not, Option,
  none, some, List, [], ◌∷◌, Text, text_eq, leb, filterb, map, Bool-cases,
}
use railfog.Errors.{Result, ok, err}
use railfog.Providers.SqliteQueue.{Entry, Message, receive, ack}
use railfog.Providers.SqliteQueue.Receiving.{open_count}
use railfog.Providers.SqliteQueue.Delivery.{contents, lives, receive-contents}
use railfog.Worker.QueueConsumer.{Queue, give_up, settle, dispatch, process_next}

-- The SQLite queue at one time, beside the bodies that were sent to another queue for dead letters.
abbrev pub answer_of : {A : Type 0} → Option (Option A) → Result (Option A)
answer_of none = ok none
answer_of (some answer) = ok answer

abbrev pub mailbox : (now : ℕ) → Queue
mailbox now = record {
  Store = List Entry × List Text;
  receive = λ timeout s. (
    answer_of (receive (suc (open_count s.0)) timeout (λ _. now) s.0).0,
    ((receive (suc (open_count s.0)) timeout (λ _. now) s.0).1, s.1),
  );
  ack = λ id s. (ok tt, (ack id s.0, s.1));
}

-- Dead letters are sent elsewhere.
abbrev pub elsewhere :
    Option (Text → List Entry × List Text → Result Text × (List Entry × List Text))
elsewhere = some (λ body s. (ok [], (s.0, body ∷ s.1)))

-- A function whose outcome depends on the message alone.
abbrev pub outcome_of :
    {S : Type 0} → (Message → Result (Unit {0})) → Message → S → Result (Unit {0}) × S
outcome_of handler m s = (handler m, s)

ack-contents :
    (id : Text) (rows : List Entry)
    → map contents (ack id rows) ≡ filterb (λ c. not (text_eq c.0 id)) (map contents rows)
unfolding ack
ack-contents id [] = refl
ack-contents id (r ∷ rows) = elim (Bool-cases (text_eq r.id id)) [
  | inl hit ↦ rw (hit, ack-contents id rows)
  | inr miss ↦ rw (miss, ack-contents id rows)
]

filterb_comm {ℓ} :
    {A : Type ℓ} (p q : A → Bool) (xs : List A)
    → filterb p (filterb q xs) ≡ filterb q (filterb p xs)
filterb_comm p q [] = refl
filterb_comm p q (x ∷ xs) = elim (Bool-cases (p x)) [
  | inl yes_p ↦ elim (Bool-cases (q x)) [
    | inl yes_q ↦ rw (yes_p, yes_q, yes_p, filterb_comm p q xs)
    | inr no_q ↦ rw (yes_p, no_q, filterb_comm p q xs)
  ]
  | inr no_p ↦ elim (Bool-cases (q x)) [
    | inl yes_q ↦ rw (no_p, yes_q, no_p, filterb_comm p q xs)
    | inr no_q ↦ rw (no_p, no_q, filterb_comm p q xs)
  ]
]

module _ (handler : Message → Result (Unit {0})) (now timeout max_receives : ℕ) where
  -- What the poll receives.
  abbrev pub received : List Entry → Result (Option Message)
  received rows = answer_of (receive (suc (open_count rows)) timeout (λ _. now) rows).0

  -- The received message is settled: by the function's success, or, where it failed for the last
  -- time, as a dead letter.
  abbrev pub IsSettled : Message → (dead dead' : List Text) → Type 0
  IsSettled m dead dead' =
      ((handler m ≡ ok tt) × (dead' ≡ dead))
      ⊎ ((¬ (handler m ≡ ok tt)) × (max_receives ≤ m.attempts) × (dead' ≡ m.body ∷ dead))

  -- The message is to be received again, or there was none.
  abbrev pub IsLeft : Result (Option Message) → Type 0
  IsLeft (err _) = Unit
  IsLeft (ok none) = Unit
  IsLeft (ok (some m)) = (¬ (handler m ≡ ok tt)) × (m.attempts < max_receives)

  abbrev pub Keeps :
      (got : Result (Option Message)) (rows : List Entry) (dead : List Text)
      → List Entry × List Text
      → Type 0
  Keeps got rows dead after =
      (IsLeft got
        × (after.1 ≡ dead)
        × (filterb (lives now) (map contents after.0) ≡ filterb (lives now) (map contents rows)))
      ⊎ ((m : Message) × (got ≡ ok (some m))
          × IsSettled m dead after.1
          × (filterb (lives now) (map contents after.0)
              ≡ filterb (λ c. not (text_eq c.0 m.id)) (filterb (lives now) (map contents rows))))

  acked-contents :
      (m : Message) (rows rows₁ : List Entry)
      → filterb (lives now) (map contents rows₁) ≡ filterb (lives now) (map contents rows)
      → filterb (lives now) (map contents (ack m.id rows₁))
        ≡ filterb (λ c. not (text_eq c.0 m.id)) (filterb (lives now) (map contents rows))
  acked-contents m rows rows₁ same =
      ap (filterb (lives now)) (ack-contents m.id rows₁)
      ∙ filterb_comm (lives now) (λ c. not (text_eq c.0 m.id)) (map contents rows₁)
      ∙ ap (filterb (λ c. not (text_eq c.0 m.id))) same

  settle-Keeps :
      (m : Message) (o : Result (Unit {0})) (rows rows₁ : List Entry) (dead : List Text)
      → handler m ≡ o
      → filterb (lives now) (map contents rows₁) ≡ filterb (lives now) (map contents rows)
      → Keeps
          (ok (some m))
          rows
          dead
          (settle
            (mailbox now)
            elsewhere
            (outcome_of handler)
            timeout
            max_receives
            m
            o
            (rows₁, dead)).1
  unfolding settle give_up
  settle-Keeps m (ok _) rows rows₁ dead e same =
      inr (m, refl, inl (e, refl), acked-contents m rows rows₁ same)
  settle-Keeps m (err _) rows rows₁ dead e same = elim (Bool-cases (leb max_receives m.attempts)) [
    | inl last ↦
        rw (last, give_up)
          (inr (
            m,
            refl,
            inr ((λ returned. cc), leb→le max_receives m.attempts last, refl),
            acked-contents m rows rows₁ same,
          ))
    | inr again ↦
        rw (again, give_up)
          (inl (((λ returned. cc), leb-false→lt max_receives m.attempts again), refl, same))
  ]

  dispatch-Keeps :
      (got : Result (Option Message)) (rows rows₁ : List Entry) (dead : List Text)
      → filterb (lives now) (map contents rows₁) ≡ filterb (lives now) (map contents rows)
      → Keeps got rows dead
          (dispatch
            (mailbox now)
            elsewhere
            (outcome_of handler)
            timeout
            max_receives
            got
            (rows₁, dead)).1
  unfolding dispatch
  dispatch-Keeps (err _) rows rows₁ dead same = inl (tt, refl, same)
  dispatch-Keeps (ok none) rows rows₁ dead same = inl (tt, refl, same)
  dispatch-Keeps (ok (some m)) rows rows₁ dead same =
      settle-Keeps m (handler m) rows rows₁ dead refl same

  -- A poll of the SQLite queue loses no message silently, for a function whose outcome depends on
  -- the message alone, a worker whose dead letters go to another queue, and one clock reading.
  -- Either the poll leaves the id, body and expiry of every unexpired message, and sends no dead
  -- letter, and then it received no message, or one on which the function failed with fewer attempts
  -- than the maximum; or it removes the messages of the id of the message that it received, and leaves
  -- the others: the function succeeded on that message, and there is no new dead letter, or it
  -- failed, its attempts reached the maximum, and its body is the new dead letter.
  pub process_next-Keeps :
      (rows : List Entry) (dead : List Text)
      → Keeps
          (received rows)
          rows
          dead
          (process_next
            (mailbox now)
            elsewhere
            (outcome_of handler)
            timeout
            max_receives
            (rows, dead)).1
  unfolding process_next
  process_next-Keeps rows dead =
      dispatch-Keeps _ rows _ dead (receive-contents (suc (open_count rows)) timeout now rows)
