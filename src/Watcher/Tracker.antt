-- ===== src/Watcher/Tracker.antt =====
-- depositwatcher/internal/finality: the deposits that are watched until they are final, and those that
-- are remembered after it.
use usdt_settlement_corridor.Base.{
  ℕ, ◌+◌, ◌-◌, ◌/◌, ◌%◌, Bool, true, false, ◌&&◌, ◌||◌, not, List, [], ◌∷◌, ◌++◌, Option, none,
  some, ltb, leb, ◌==◌, if◌then◌else◌, length,
}
use usdt_settlement_corridor.Base.Int.{ℤ}
use usdt_settlement_corridor.Base.Text.{Text, bytes, text_eq}
use usdt_settlement_corridor.Base.Hex.{hex}
use usdt_settlement_corridor.Base.Table.{exists_by, select, update_by}
use usdt_settlement_corridor.Ledger.Money.Decimal.{format_nat}
use usdt_settlement_corridor.Watcher.Classify.{Classification, is_zero_value}
pub mod Counts
pub mod Steps
pub mod Heights
pub mod Ticks
pub mod Sums
pub mod Invariant
pub mod Effect
pub mod Keys

-- `candidateKey`.
pub record Key : Type 0 where
  pub tx_hash : Text
  pub log_index : ℕ

unfoldable pub same_key : Key → Key → Bool
same_key a b = text_eq a.tx_hash b.tx_hash && a.log_index == b.log_index

abbrev pub deposit_final_idempotency_key_prefix : Text
deposit_final_idempotency_key_prefix = bytes "watcher:deposit_final:"

unfoldable pub deposit_final_idempotency_key : Key → Text
deposit_final_idempotency_key k =
    deposit_final_idempotency_key_prefix
    ++ bytes "0x"
    ++ hex k.tx_hash
    ++ bytes ":"
    ++ format_nat 20 k.log_index []

pub record ObservedLog : Type 0 where
  pub key : Key
  pub height : ℕ
  pub block_time : ℕ
  pub order_id : ℕ
  pub external_id : Text
  pub customer_id : Text
  pub amount : ℤ
  pub sender_address : Text

pub record Candidate : Type 0 where
  pub log : ObservedLog
  pub classification : Classification
  pub detected_at : ℕ
  pub alerted_stale : Bool
  pub contradicted : Bool

-- What an error of `OnFinal` wraps: `ErrPermanentFailure`, `ErrOrphanedDeposit`.
pub record HandlerError : Type 0 where
  pub permanent : Bool
  pub orphaned : Bool

-- The calls of the tracker's collaborators, in order, each with its answer, and the counters.
pub data Event : Type 0 where
  detected : Key → Event
  stale : Key → Event
  -- `OnFinal` returned nil, or an error that is not a recorded one.
  accepted : Key → Event
  refused : Key → HandlerError → Event
  -- `RecordOrphanedDeposit` returned nil, or an error.
  recorded : Key → Event
  unrecorded : Key → Event
  -- The alert of a reorg after finality, and `ReportReorg` with its answer.
  contradiction : Key → Event
  withdrawn : Key → Event
  unreported : Key → Event

pub record Tracker : Type 0 where
  pub pending : List Candidate
  pub finalized : List Candidate
  pub events : List Event

abbrev pub new_tracker : Tracker
new_tracker = record { pending = []; finalized = []; events = [] }

-- What one tick asks of the outside. A height is queried once when the pending candidates are verified
-- and once when the finalized ones are; none stands for an error or for providers that disagree.
pub record Outside : Type 0 where
  pub latest_finalized : Option ℕ
  pub logs_at : ℕ → Option (List Key)
  pub logs_again : ℕ → Option (List Key)
  pub on_final : Candidate → Option HandlerError
  pub record_orphaned : Candidate → Bool
  pub report_reorg : Text → Text → Bool

-- `Config`: whether `OnStalePending` is set, and the ceiling.
pub record Config : Type 0 where
  pub alerts_stale : Bool
  pub stale_pending_ceiling : ℕ

abbrev pub has_key : Key → Candidate → Bool
has_key k c = same_key c.log.key k

abbrev pub event : Event → Tracker → Tracker
event e t = record t { events = t.events ++ (e ∷ []) }

-- `OnLogObserved`.
unfoldable pub on_log_observed : ℕ → ObservedLog → Classification → Tracker → Tracker
on_log_observed now log kind t =
    if exists_by (has_key log.key) t.finalized || exists_by (has_key log.key) t.pending
    then t
    else if is_zero_value kind
    then t
    else record t {
      pending =
          t.pending
          ++ (record {
            log = log;
            classification = kind;
            detected_at = now;
            alerted_stale = false;
            contradicted = false;
          }
              ∷ []);
      events = t.events ++ (detected log.key ∷ []);
    }

abbrev pub ready_candidates : ℕ → Tracker → List Candidate
ready_candidates final_height t = select (λ c. leb c.log.height final_height) t.pending

abbrev pub is_stale : Config → ℕ → Candidate → Bool
is_stale cfg now c = not c.alerted_stale && ltb cfg.stale_pending_ceiling (now - c.detected_at)

abbrev pub alert_all : List Candidate → List Event
alert_all [] = []
alert_all (c ∷ cs) = stale c.log.key ∷ alert_all cs

unfoldable pub check_stale_pending : Config → ℕ → Tracker → Tracker
check_stale_pending cfg now t =
    if cfg.alerts_stale
    then record t {
      pending = update_by (is_stale cfg now) (λ c. record c { alerted_stale = true }) t.pending;
      events = t.events ++ alert_all (select (is_stale cfg now) t.pending);
    }
    else t

abbrev pub without : Key → List Candidate → List Candidate
without k cs = select (λ c. not (same_key c.log.key k)) cs

-- `drop`.
unfoldable pub drop_candidate : Key → Tracker → Tracker
drop_candidate k t = record t { pending = without k t.pending }

-- `HandleUnreportable`, with whether it succeeded.
unfoldable pub handle_unreportable : Outside → Candidate → Tracker → Bool × Tracker
handle_unreportable out c t =
    if out.record_orphaned c
    then (true, event (recorded c.log.key) t)
    else (false, event (unrecorded c.log.key) t)

-- The branches of `finalize` on an error of `OnFinal`.
unfoldable pub not_accepted : Outside → Candidate → HandlerError → Tracker → Tracker
not_accepted out c e t =
    if not e.permanent
    then t
    else if not e.orphaned
    then drop_candidate c.log.key t
    else let answer = handle_unreportable out c t in
      if answer.0 then drop_candidate c.log.key answer.1 else answer.1

unfoldable pub finalize : Outside → Candidate → Tracker → Tracker
finalize out c t = elim (out.on_final c) [
  | some e ↦ not_accepted out c e (event (refused c.log.key e) t)
  | none ↦ record t {
    pending = without c.log.key t.pending;
    finalized = without c.log.key t.finalized ++ (c ∷ []);
    events = t.events ++ (accepted c.log.key ∷ []);
  }
]

abbrev pub present : List Key → Candidate → Bool
present keys c = exists_by (λ k. same_key k c.log.key) keys

-- The inner loop of `CheckFinality`, over the candidates of one height.
unfoldable pub verify_pending : Outside → List Key → List Candidate → Tracker → Tracker
verify_pending out keys [] t = t
verify_pending out keys (c ∷ cs) t =
    verify_pending out keys cs
      (if present keys c then finalize out c t else drop_candidate c.log.key t)

-- The keys of the map `byHeight`, each once, and the candidates under one of them.
unfoldable pub heights : List Candidate → List ℕ
heights [] = []
heights (c ∷ cs) =
    let rest = heights cs in
    if exists_by (λ h. h == c.log.height) rest then rest else c.log.height ∷ rest

abbrev pub at_height : ℕ → List Candidate → List Candidate
at_height h cs = select (λ c. c.log.height == h) cs

-- A height whose query fails is left for the next tick.
unfoldable pub verify_answer : Outside → Option (List Key) → List Candidate → Tracker → Tracker
verify_answer out none cs t = t
verify_answer out (some keys) cs t = verify_pending out keys cs t

unfoldable pub verify_heights : Outside → List Candidate → List ℕ → Tracker → Tracker
verify_heights out ready [] t = t
verify_heights out ready (h ∷ hs) t =
    verify_heights out ready hs (verify_answer out (out.logs_at h) (at_height h ready) t)

-- `handlePostFinalReorg`.
unfoldable pub handle_post_final_reorg : Outside → Candidate → Tracker → Tracker
handle_post_final_reorg out c t =
    let told = if c.contradicted then t.events else t.events ++ (contradiction c.log.key ∷ []) in
    if out.report_reorg c.log.external_id (deposit_final_idempotency_key c.log.key)
    then record t {
      finalized = without c.log.key t.finalized;
      events = told ++ (withdrawn c.log.key ∷ []);
    }
    else record t {
      finalized = update_by (has_key c.log.key) (λ x. record x { contradicted = true }) t.finalized;
      events = told ++ (unreported c.log.key ∷ []);
    }

unfoldable pub verify_finalized : Outside → List Key → List Candidate → Tracker → Tracker
verify_finalized out keys [] t = t
verify_finalized out keys (c ∷ cs) t =
    verify_finalized out keys cs (if present keys c then t else handle_post_final_reorg out c t)

unfoldable pub recheck_answer : Outside → Option (List Key) → List Candidate → Tracker → Tracker
recheck_answer out none cs t = t
recheck_answer out (some keys) cs t = verify_finalized out keys cs t

unfoldable pub recheck_heights : Outside → List Candidate → List ℕ → Tracker → Tracker
recheck_heights out remembered [] t = t
recheck_heights out remembered (h ∷ hs) t =
    recheck_heights out remembered hs
      (recheck_answer out (out.logs_again h) (at_height h remembered) t)

unfoldable pub check_post_final_reorgs : Outside → Tracker → Tracker
check_post_final_reorgs out t = recheck_heights out t.finalized (heights t.finalized) t

-- `CheckFinality`, with whether it returned nil.
unfoldable pub check_finality : Config → Outside → ℕ → Tracker → Bool × Tracker
check_finality cfg out now t = elim out.latest_finalized [
  | none ↦ (false, t)
  | some final_height ↦
      let t₁ = check_stale_pending cfg now t in
      let ready = ready_candidates final_height t₁ in
      let t₂ = verify_heights out ready (heights ready) t₁ in (true, check_post_final_reorgs out t₂)
]

abbrev pub pending_count : Tracker → ℕ
pending_count t = length t.pending

abbrev pub finalized_count : Tracker → ℕ
finalized_count t = length t.finalized

-- `OldestPendingDetectedAt`.
unfoldable pub oldest_from : Option ℕ → List Candidate → Option ℕ
oldest_from best [] = best
oldest_from best (c ∷ cs) = oldest_from (earlier best) cs
  where
    earlier : Option ℕ → Option ℕ
    earlier none = some c.detected_at
    earlier (some b) = if ltb c.detected_at b then some c.detected_at else some b

abbrev pub oldest_pending_detected_at : Tracker → Option ℕ
oldest_pending_detected_at t = oldest_from none t.pending
