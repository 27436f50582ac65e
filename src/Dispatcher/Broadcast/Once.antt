-- ===== src/Dispatcher/Broadcast/Once.antt =====
-- However the sections of many callers are interleaved, an attempt is broadcast at most once for each
-- time that the row's transaction can be committed.
use usdt_settlement_corridor.Base.{
  ℕ, suc, ◌<◌, ◌≤◌, ◌+◌, ◌≡◌, refl, sym, ap, subst, ◌∙◌, Bool, true, false, ◌&&◌, ◌||◌, List, [],
  ◌∷◌, ◌++◌, some, arith, ◌==◌, ==_iff, if◌then◌else◌, Bool-cases, inl, inr, All, All-append,
  All-map,
}
use usdt_settlement_corridor.Base.Text.{Text}
use usdt_settlement_corridor.Base.Hex.{hex}
use usdt_settlement_corridor.Base.Table.{update_by, update_by-All}
use usdt_settlement_corridor.Base.Count.{
  count_by, count_by-last, count_by-update_by, count_by-update_by_on, count_by_unique,
  find_by-count_by,
}
use usdt_settlement_corridor.Dispatcher.Attempts.{
  BroadcastStatus, signed, broadcast, confirmed, failed_status, is_built, is_signed, is_broadcast,
  is_confirmed, BroadcastAttempt, has_id, new_attempt, create_attempt, mark_failed, mark_signed,
  mark_confirmed,
}
use usdt_settlement_corridor.Dispatcher.Broadcast.{
  SigningAnswer, unavailable, pending, rejected, signed_with, OutsideCall, asked, sent, unsent,
  Payouts, Services, after_signature,
}
use usdt_settlement_corridor.Dispatcher.Broadcast.Rows.{
  mark_failed_rows, mark_signed_rows, with_new, create_attempt_does, mark_confirmed_rows,
}
use usdt_settlement_corridor.Dispatcher.Broadcast.Sections.{
  sent_row, Sendable, Broadcasts, nothing, unanswered, uncommitted, committed,
  ensure_broadcast_does, Section, creating, asking, answering, broadcasting, failing, confirming,
  Sections, none_yet, one_more, no_payouts,
}

-- A call of the chain for an attempt that succeeded and whose row was committed.
unfoldable pub is_sent : ℕ → OutsideCall → Bool
is_sent i c = elim c [
  | asked slot key ↦ false
  | unsent j tx signature ↦ false
  | sent j tx signature ok ↦ ok && j == i
]

abbrev pub went : BroadcastStatus → Bool
went s = is_broadcast s || is_confirmed s

abbrev pub went_under : ℕ → BroadcastAttempt → Bool
went_under i a = has_id i a && went a.status

pub record IsPayouts (p : Payouts) : Type 0 where
  pub unique : (i : ℕ) → count_by (has_id i) p.attempts.rows ≤ 1
  pub below : All (λ a. a.id < p.attempts.next_id) p.attempts.rows
  pub once : (i : ℕ) → count_by (is_sent i) p.calls ≡ count_by (went_under i) p.attempts.rows

-- An update that keeps the ids and whether a row went out.
module _ (hit : BroadcastAttempt → Bool) (f : BroadcastAttempt → BroadcastAttempt)
    (p : Payouts) where
  updated :
      ((a : BroadcastAttempt) → (f a).id ≡ a.id)
      → ((a : BroadcastAttempt) → hit a ≡ true → went (f a).status ≡ went a.status)
      → IsPayouts p
      → IsPayouts
          (record p { attempts = record p.attempts { rows = update_by hit f p.attempts.rows } })
  updated same keeps v = record {
    unique = λ i.
        rw (count_by-update_by (has_id i) hit f p.attempts.rows (λ a. ap (λ n. n == i) (same a)))
          (v.unique i);
    below =
        update_by-All hit f (λ a. a.id < p.attempts.next_id) (λ a. a.id < p.attempts.next_id)
          p.attempts.rows (λ a t l. rw (same a) l) (λ a t l. l) v.below;
    once = λ i.
        v.once i
        ∙ sym (
            count_by-update_by_on (went_under i) (went_under i) hit f p.attempts.rows
              (λ a. each i a));
  }
    where
      each :
          (i : ℕ) (a : BroadcastAttempt)
          → (if hit a then went_under i (f a) else went_under i a) ≡ went_under i a
      each i a = elim (Bool-cases (hit a)) [
        | inl t ↦ rw (t, same a, keeps a t) refl
        | inr n ↦ rw n refl
      ]

none_at :
    (n i : ℕ) (rows : List BroadcastAttempt)
    → (n == i) ≡ true
    → All (λ a. a.id < n) rows
    → count_by (has_id i) rows ≡ 0
unfolding count_by
none_at n i [] e h = refl
none_at n i (a ∷ rows) e h = ground (arith, h.0, none_at n i rows e h.1)

created :
    (order slot number : ℕ) (hash : Text) (now : ℕ) (p : Payouts)
    → IsPayouts p
    → IsPayouts (record p { attempts = with_new order slot number hash now p.attempts })
created order slot number hash now p v =
    let a = new_attempt p.attempts.next_id order slot number hash now in
    record {
      unique = λ i. elim (Bool-cases (p.attempts.next_id == i)) [
        | inl t ↦ ground (
          arith,
          none_at p.attempts.next_id i p.attempts.rows t v.below,
          count_by-last (has_id i) p.attempts.rows a,
        )
        | inr n ↦ ground (arith, v.unique i, count_by-last (has_id i) p.attempts.rows a)
      ];
      below =
          All-append (λ a. a.id < suc p.attempts.next_id) p.attempts.rows (a ∷ [])
            (All-map (λ a. a.id < p.attempts.next_id) (λ a. a.id < suc p.attempts.next_id)
              p.attempts.rows (λ a l. omega (arith, l)) v.below)
            (omega arith, tt);
      once = λ i.
          v.once i ∙ sym (not_went i (has_id i a) (count_by-last (went_under i) p.attempts.rows a));
    }
  where
    not_went :
        (i : ℕ) (b : Bool)
        → count_by
            (went_under i)
            (p.attempts.rows ++ (new_attempt p.attempts.next_id order slot number hash now ∷ []))
          ≡ count_by (went_under i) p.attempts.rows + (if b && false then 1 else 0)
        → count_by
            (went_under i)
            (p.attempts.rows ++ (new_attempt p.attempts.next_id order slot number hash now ∷ []))
          ≡ count_by (went_under i) p.attempts.rows
    not_went i b h = ground (arith, h)

creating-IsPayouts :
    (order slot number : ℕ) (hash : Text) (now : ℕ) (p : Payouts)
    → IsPayouts p
    → IsPayouts (record p { attempts = (create_attempt order slot number hash now p.attempts).1 })
creating-IsPayouts order slot number hash now p v =
    elim (create_attempt_does order slot number hash now p.attempts) [
      | inl e ↦ rw e v
      | inr e ↦ rw e (created order slot number hash now p v)
    ]

failing-IsPayouts :
    (i : ℕ) (p : Payouts)
    → IsPayouts p
    → IsPayouts (record p { attempts = (mark_failed i p.attempts).1 })
failing-IsPayouts i p v = rw (mark_failed_rows i p.attempts) (
    updated (λ a. has_id i a && (is_built a.status || is_signed a.status))
      (λ a. record a { status = failed_status }) p (λ a. refl) (λ a. not_yet a.status (has_id i a))
      v)
  where
    not_yet :
        (s : BroadcastStatus) (b : Bool)
        → b && (is_built s || is_signed s) ≡ true
        → went failed_status ≡ went s
    not_yet s b h = ground arith

confirming-IsPayouts :
    (i : ℕ) (p : Payouts)
    → IsPayouts p
    → IsPayouts (record p { attempts = (mark_confirmed i p.attempts).1 })
confirming-IsPayouts i p v = rw (mark_confirmed_rows i p.attempts) (
    updated (λ a. has_id i a && is_broadcast a.status) (λ a. record a { status = confirmed }) p
      (λ a. refl) (λ a. already a.status (has_id i a)) v)
  where
    already :
        (s : BroadcastStatus) (b : Bool) → b && is_broadcast s ≡ true → went confirmed ≡ went s
    already s b h = ground arith

signing-IsPayouts :
    (i : ℕ) (stored hash : Text) (p : Payouts)
    → IsPayouts p
    → IsPayouts (record p { attempts = (mark_signed i stored hash p.attempts).1 })
signing-IsPayouts i stored hash p v = rw (mark_signed_rows i stored hash p.attempts) (
    updated (λ a. has_id i a && is_built a.status)
      (λ a. record a { status = signed; signed_tx = some stored; signed_tx_hash = some hash }) p
      (λ a. refl) (λ a. not_yet a.status (has_id i a)) v)
  where
    not_yet : (s : BroadcastStatus) (b : Bool) → b && is_built s ≡ true → went signed ≡ went s
    not_yet s b h = ground arith

answering-IsPayouts :
    (sv : Services) (i : ℕ) (answer : SigningAnswer) (p : Payouts)
    → IsPayouts p
    → IsPayouts (after_signature sv i answer p).1
unfolding after_signature
answering-IsPayouts sv i unavailable p v = v
answering-IsPayouts sv i pending p v = v
answering-IsPayouts sv i rejected p v = failing-IsPayouts i p v
answering-IsPayouts sv i (signed_with signature) p v =
    signing-IsPayouts i (hex signature) (sv.hash_hex signature) p v

-- A call that is not a committed broadcast leaves the counts as they are.
told :
    (c : OutsideCall) (p : Payouts)
    → ((i : ℕ) → is_sent i c ≡ false)
    → IsPayouts p
    → IsPayouts (record p { calls = p.calls ++ (c ∷ []) })
told c p silent v = record { unique = v.unique; below = v.below; once = λ i. rest i (silent i) }
  where
    rest :
        (i : ℕ)
        → is_sent i c ≡ false
        → count_by (is_sent i) (p.calls ++ (c ∷ [])) ≡ count_by (went_under i) p.attempts.rows
    rest i h = ground (arith, count_by-last (is_sent i) p.calls c, v.once i)

-- The committed broadcast of a row that can be sent: it had not gone out, and now it has.
sending-IsPayouts :
    (i : ℕ) (tx signature txid : Text) (now : ℕ) (p : Payouts)
    → Sendable i signature p
    → IsPayouts p
    → IsPayouts (record {
      attempts = sent_row i txid now p.attempts;
      calls = p.calls ++ (sent i tx signature true ∷ []);
    })
unfolding is_sent
sending-IsPayouts i tx signature txid now p s v = record {
  unique = λ j.
      rw (count_by-update_by (has_id j) (has_id i) gone_out p.attempts.rows (λ a. refl))
        (v.unique j);
  below =
      update_by-All (has_id i) gone_out (λ a. a.id < p.attempts.next_id)
        (λ a. a.id < p.attempts.next_id) p.attempts.rows (λ a t l. l) (λ a t l. l) v.below;
  once = λ j. count j;
}
  where
    gone_out : BroadcastAttempt → BroadcastAttempt
    gone_out a = record a { status = broadcast; tron_txid = some txid; broadcast_at = some now }

    its_row :
        (a : BroadcastAttempt)
        → (if has_id i a then went_under i (gone_out a) else went_under i a) ≡ has_id i a
    its_row a = ground arith

    other_row :
        (j : ℕ) (a : BroadcastAttempt)
        → (i == j) ≡ false
        → (if has_id i a then went_under j (gone_out a) else went_under j a) ≡ went_under j a
    other_row j a n = ground arith

    fits : (a b : Bool) → a && b ≡ true → a ≡ true
    fits a b h = ground arith

    its_count :
        count_by (is_sent i) (p.calls ++ (sent i tx signature true ∷ []))
        ≡ count_by (went_under i) (update_by (has_id i) gone_out p.attempts.rows)
    its_count =
        let not_out =
          count_by_unique (has_id i) (went_under i) p.attempts.rows s.current (v.unique i) s.found
            (λ a. fits (has_id i a) (went a.status)) in
        let out =
          count_by-update_by_on (went_under i) (has_id i) (has_id i) gone_out p.attempts.rows
            its_row in
        ground (
          arith,
          v.once i,
          v.unique i,
          not_out,
          out,
          s.signed,
          find_by-count_by (has_id i) p.attempts.rows s.current s.found,
          count_by-last (is_sent i) p.calls (sent i tx signature true),
        )

    count :
        (j : ℕ)
        → count_by (is_sent j) (p.calls ++ (sent i tx signature true ∷ []))
          ≡ count_by (went_under j) (update_by (has_id i) gone_out p.attempts.rows)
    count j = elim (Bool-cases (i == j)) [
      | inl t ↦
          subst
            (λ k.
              count_by (is_sent k) (p.calls ++ (sent i tx signature true ∷ []))
              ≡ count_by (went_under k) (update_by (has_id i) gone_out p.attempts.rows))
            ((==_iff i j).0 t) its_count
      | inr n ↦
          let others =
            count_by-update_by_on (went_under j) (went_under j) (has_id i) gone_out p.attempts.rows
              (λ a. other_row j a n) in
          ground (
            arith,
            others,
            v.once j,
            n,
            count_by-last (is_sent j) p.calls (sent i tx signature true),
          )
    ]

Section-IsPayouts : (p q : Payouts) → IsPayouts p → Section p q → IsPayouts q
unfolding is_sent
Section-IsPayouts p q v (creating order slot number hash now) =
    creating-IsPayouts order slot number hash now p v
Section-IsPayouts p q v (asking slot key) = told (asked slot key) p (λ i. refl) v
Section-IsPayouts p q v (answering sv i answer) = answering-IsPayouts sv i answer p v
Section-IsPayouts p q v (broadcasting sv i tx) = does q (ensure_broadcast_does sv i tx p)
  where
    does : (r : Payouts) → Broadcasts i tx p r → IsPayouts r
    does r nothing = v
    does r (unanswered signature s) = told (unsent i tx signature) p (λ j. refl) v
    does r (uncommitted signature s) = told (sent i tx signature false) p (λ j. refl) v
    does r (committed signature txid now s) = sending-IsPayouts i tx signature txid now p s v
Section-IsPayouts p q v (failing i) = failing-IsPayouts i p v
Section-IsPayouts p q v (confirming i) = confirming-IsPayouts i p v

-- However the sections of Broadcast, the rejections, freezes and confirmations of any number of callers
-- are interleaved on an empty table, and whatever the signer and the chain answer: ids are not
-- shared, and an attempt has one committed broadcast if its row is BROADCAST or CONFIRMED and none
-- otherwise. A broadcast whose row could not be committed is not counted,
-- nor is a call of the chain that returned an error.
pub Sections-no_payouts : (p : Payouts) → Sections no_payouts p → IsPayouts p
unfolding count_by
Sections-no_payouts p none_yet = record { unique = λ i. omega arith; below = tt; once = λ i. refl }
Sections-no_payouts p (one_more q r before last) =
    Section-IsPayouts q p (Sections-no_payouts q before) last
