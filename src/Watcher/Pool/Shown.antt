-- ===== src/Watcher/Pool/Shown.antt =====
-- A key in the logs that LogsAt answers is a key in the logs of both providers.
use usdt_settlement_corridor.Base.{
  ℕ, ◌<◌, ◌≡◌, refl, ◌⊎◌, inl, inr, Bool, true, false, List, [], ◌∷◌, map, Option, none, some,
  arith, Bool-cases, Option-cases, take, All, All-map,
}
use usdt_settlement_corridor.Base.Table.{exists_by}
use usdt_settlement_corridor.Base.Count.{count_by}
use usdt_settlement_corridor.Watcher.Transfers.{Log}
use usdt_settlement_corridor.Watcher.Tracker.{Key, same_key}
use usdt_settlement_corridor.Watcher.Pool.{Provider, Pool}
use usdt_settlement_corridor.Watcher.Pool.Logs.{log_equal, LogsError, logs_at}
use usdt_settlement_corridor.Watcher.Pool.Copies.{
  copies, log_equal-fields, log_equal_refl, logs_at_copies,
}

-- `candidateKey{l.TxHash, l.Index}`.
abbrev pub log_key : Log → Key
log_key l = record { tx_hash = l.tx_hash; log_index = l.log_index }

unfoldable pub keys_of : LogsError ⊎ List Log → Option (List Key)
keys_of (inl e) = none
keys_of (inr logs) = some (map log_key logs)

-- Whether a provider reports a log with a key at a height.
unfoldable pub shows : ℕ → Key → Provider → Bool
shows height k q = elim (q.filter_logs height height) [
  | none ↦ false
  | some logs ↦ exists_by (λ l. same_key (log_key l) k) logs
]

same_key_equal :
    (k : Key) (l x : Log)
    → log_equal l x ≡ true
    → same_key (log_key l) k ≡ true
    → same_key (log_key x) k ≡ true
same_key_equal k l x e s = let f = log_equal-fields l x e in cc (f.tx_hash, f.log_index, s)

counted_exists :
    (k : Key) (l : Log) (xs : List Log)
    → same_key (log_key l) k ≡ true
    → 0 < count_by (log_equal l) xs
    → exists_by (λ x. same_key (log_key x) k) xs ≡ true
unfolding count_by exists_by
counted_exists k l [] s n = absurd (omega arith)
counted_exists k l (x ∷ xs) s n = ground (arith, same_key_equal k l x, counted_exists k l xs s)

-- A log with the key, and how often it is there.
found_log :
    (k : Key) (logs : List Log)
    → exists_by (λ j. same_key j k) (map log_key logs) ≡ true
    → (l : Log) × (same_key (log_key l) k ≡ true) × (0 < count_by (log_equal l) logs)
unfolding count_by exists_by
found_log k [] e = absurd (cc (e))
found_log k (x ∷ logs) e = elim (Bool-cases (same_key (log_key x) k)) [
  | inl y ↦ (x, y, ground (arith, log_equal_refl x))
  | inr n ↦ let (l, s, c) = found_log k logs (ground arith) in (l, s, ground arith)
]

copies-shows :
    (height n : ℕ) (k : Key) (l : Log)
    → same_key (log_key l) k ≡ true
    → 0 < n
    → (q : Provider) → copies height height l q ≡ some n
    → shows height k q ≡ true
unfolding copies shows
copies-shows height n k l s p q e = elim (Option-cases (q.filter_logs height height)) [
  | inl o ↦ absurd (no_copies n (rw (copies, o) at e))
  | inr (xs, o) ↦
      rw (shows, o)
        (counted_exists k l xs s (positive (count_by (log_equal l) xs) n (rw (copies, o) at e) p))
]
  where
    no_copies : (n : ℕ) → ◌≡◌ {A = Option ℕ} none (some n) → ⊥
    no_copies n e = cc

    positive : (m n : ℕ) → some m ≡ some n → 0 < n → 0 < m
    positive m n e p = ground arith

keys_of-some :
    (a : LogsError ⊎ List Log) (keys : List Key)
    → keys_of a ≡ some keys
    → (logs : List Log) × (a ≡ inr logs) × (map log_key logs ≡ keys)
unfolding keys_of
keys_of-some (inl x) keys e = absurd (cc (e))
keys_of-some (inr logs) keys e = (logs, refl, same (map log_key logs) keys e)
  where
    same : (xs ys : List Key) → some xs ≡ some ys → xs ≡ ys
    same xs ys e = cc

-- When the logs of a height are answered and a key is among theirs, the first two providers report a
-- log with the key at the height.
pub logs_at-shows :
    (now height : ℕ) (p : Pool) (keys : List Key) (k : Key)
    → keys_of (logs_at now height height p).0 ≡ some keys
    → exists_by (λ j. same_key j k) keys ≡ true
    → All (λ q. shows height k q ≡ true) (take 2 p.providers)
logs_at-shows now height p keys k e h =
    let (logs, answered, same) = keys_of-some (logs_at now height height p).0 keys e in
    let (l, s, n) = found_log k logs (rw (← same) at h) in
    let (more, both) = logs_at_copies now height height p logs l answered in
    All-map (λ q. copies height height l q ≡ some (count_by (log_equal l) logs))
      (λ q. shows height k q ≡ true) (take 2 p.providers)
      (copies-shows height (count_by (log_equal l) logs) k l s n) both
