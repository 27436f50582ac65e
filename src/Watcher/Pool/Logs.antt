-- ===== src/Watcher/Pool/Logs.antt =====
-- depositwatcher/internal/chain/logs.go: the logs on which the first two providers agree.
use usdt_settlement_corridor.Base.{
  ℕ, ◌⊎◌, inl, inr, Bool, true, false, ◌&&◌, not, List, [], ◌∷◌, none, some, ltb, ◌==◌,
  if◌then◌else◌, length,
}
use usdt_settlement_corridor.Base.Text.{Text, text_eq}
use usdt_settlement_corridor.Base.Sort.{sort_by}
use usdt_settlement_corridor.Watcher.Transfers.{Log}
use usdt_settlement_corridor.Watcher.Pool.{
  Provider, Pool, not_answered, not_agreed, record_success, record_failure,
}

-- Logs with one position may come in either order out of `sort.Slice`; here they keep theirs.
unfoldable pub log_before : Log → Log → Bool
log_before a b =
    if not (a.block_number == b.block_number)
    then ltb a.block_number b.block_number
    else if not (a.tx_index == b.tx_index)
    then ltb a.tx_index b.tx_index
    else ltb a.log_index b.log_index

abbrev pub sort_logs : List Log → List Log
sort_logs = sort_by log_before

unfoldable pub topics_equal : List Text → List Text → Bool
topics_equal [] [] = true
topics_equal [] (t ∷ ts) = false
topics_equal (s ∷ ss) [] = false
topics_equal (s ∷ ss) (t ∷ ts) = text_eq s t && topics_equal ss ts

-- The block's hash and `Removed` are left out.
unfoldable pub log_equal : Log → Log → Bool
log_equal a b =
    text_eq a.address b.address
    && (topics_equal a.topics b.topics
        && (text_eq a.payload b.payload
            && (a.block_number == b.block_number
                && (text_eq a.tx_hash b.tx_hash
                    && (a.tx_index == b.tx_index && a.log_index == b.log_index)))))

-- The loop of `logsEqual`, for lists of one length.
unfoldable pub pairs_equal : List Log → List Log → Bool
pairs_equal [] ys = true
pairs_equal (x ∷ xs) [] = false
pairs_equal (x ∷ xs) (y ∷ ys) = if not (log_equal x y) then false else pairs_equal xs ys

unfoldable pub logs_equal : List Log → List Log → Bool
logs_equal a b =
    if not (length a == length b) then false else pairs_equal (sort_logs a) (sort_logs b)

pub data LogsError : Type 0 where
  pool_too_small primary_failed secondary_failed log_mismatch : LogsError

-- The comparison sorts the primary's logs in place, and they are returned so.
unfoldable pub compare_logs :
    ℕ → Text → Text → List Log → List Log → Pool → (LogsError ⊎ List Log) × Pool
compare_logs now primary secondary xs ys p =
    if not (logs_equal xs ys)
    then (inl log_mismatch, record_failure not_agreed secondary p)
    else (inr (sort_logs xs), record_success now secondary (record_success now primary p))

unfoldable pub logs_of : ℕ → ℕ → ℕ → List Provider → Pool → (LogsError ⊎ List Log) × Pool
logs_of now from_block to_block (a ∷ b ∷ ps) p = elim (a.filter_logs from_block to_block) [
  | none ↦ (inl primary_failed, record_failure not_answered a.name p)
  | some xs ↦ elim (b.filter_logs from_block to_block) [
    | none ↦ (inl secondary_failed, record_failure not_answered b.name p)
    | some ys ↦ compare_logs now a.name b.name xs ys p
  ]
]
logs_of now from_block to_block _ p = (inl pool_too_small, p)

-- `LogsAt`: the answer, and the pool with the health of the round.
unfoldable pub logs_at : ℕ → ℕ → ℕ → Pool → (LogsError ⊎ List Log) × Pool
logs_at now from_block to_block p = logs_of now from_block to_block p.providers p
