-- ===== src/Watcher/Pool/Copies.antt =====
-- What LogsAt answers is what the first two providers both report.
use usdt_settlement_corridor.Base.{
  ℕ, ◌<◌, ◌≡◌, refl, sym, ap, ◌∙◌, ◌⊎◌, inl, inr, Bool, true, ◌&&◌, List, [], ◌∷◌, Option, none,
  some, arith, ◌==◌, Bool-cases, Option-cases, length, take, All,
}
use usdt_settlement_corridor.Base.Text.{Text, text_eq_refl, eq_of_text_eq}
use usdt_settlement_corridor.Base.Count.{count_by, count_by-sort_by}
use usdt_settlement_corridor.Watcher.Transfers.{Log}
use usdt_settlement_corridor.Watcher.Pool.{Provider, Pool}
use usdt_settlement_corridor.Watcher.Pool.Logs.{
  log_before, sort_logs, topics_equal, log_equal, pairs_equal, logs_equal, LogsError,
  pool_too_small, primary_failed, secondary_failed, log_mismatch, compare_logs, logs_of, logs_at,
}

-- How often a provider reports a log, up to what is not compared; none where it does not answer.
unfoldable pub copies : ℕ → ℕ → Log → Provider → Option ℕ
copies from_block to_block l q = elim (q.filter_logs from_block to_block) [
  | none ↦ none
  | some xs ↦ some (count_by (log_equal l) xs)
]

eq_of_topics_equal : (s t : List Text) → topics_equal s t ≡ true → s ≡ t
unfolding topics_equal
eq_of_topics_equal [] [] e = refl
eq_of_topics_equal [] (y ∷ t) e = cc
eq_of_topics_equal (x ∷ s) [] e = cc
eq_of_topics_equal (x ∷ s) (y ∷ t) e = ground (arith, eq_of_text_eq x y, eq_of_topics_equal s t)

all_seven :
    (a b c d e f g : Bool)
    → (a && (b && (c && (d && (e && (f && g)))))) ≡ true
    → (a ≡ true) × (b ≡ true) × (c ≡ true) × (d ≡ true) × (e ≡ true) × (f ≡ true) × (g ≡ true)
all_seven a b c d e f g h = ground arith

eq_of_== : (a b : ℕ) → (a == b) ≡ true → a ≡ b
eq_of_== a b e = ground arith

-- The fields that are compared.
pub record IsSameLog (a b : Log) : Type 0 where
  pub address : a.address ≡ b.address
  pub topics : a.topics ≡ b.topics
  pub payload : a.payload ≡ b.payload
  pub block_number : a.block_number ≡ b.block_number
  pub tx_hash : a.tx_hash ≡ b.tx_hash
  pub tx_index : a.tx_index ≡ b.tx_index
  pub log_index : a.log_index ≡ b.log_index

pub log_equal-fields : (a b : Log) → log_equal a b ≡ true → IsSameLog a b
unfolding log_equal
log_equal-fields a b e =
    let (address, topics, payload, block, hash, tx, index) = all_seven _ _ _ _ _ _ _ e in
    record {
      address = eq_of_text_eq a.address b.address address;
      topics = eq_of_topics_equal a.topics b.topics topics;
      payload = eq_of_text_eq a.payload b.payload payload;
      block_number = eq_of_== a.block_number b.block_number block;
      tx_hash = eq_of_text_eq a.tx_hash b.tx_hash hash;
      tx_index = eq_of_== a.tx_index b.tx_index tx;
      log_index = eq_of_== a.log_index b.log_index index;
    }

topics_equal_refl : (s : List Text) → topics_equal s s ≡ true
unfolding topics_equal
topics_equal_refl [] = refl
topics_equal_refl (x ∷ s) = ground (arith, text_eq_refl x, topics_equal_refl s)

pub log_equal_refl : (l : Log) → log_equal l l ≡ true
unfolding log_equal
log_equal_refl l = ground (
  arith,
  text_eq_refl l.address,
  topics_equal_refl l.topics,
  text_eq_refl l.payload,
  text_eq_refl l.tx_hash,
)

-- Equal logs are alike to any other.
log_equal_other : (l a b : Log) → log_equal a b ≡ true → log_equal l a ≡ log_equal l b
unfolding log_equal
log_equal_other l a b e =
    let f = log_equal-fields a b e in
    cc (f.address, f.topics, f.payload, f.block_number, f.tx_hash, f.tx_index, f.log_index)

pairs_equal-count :
    (l : Log) (xs ys : List Log)
    → length xs ≡ length ys
    → pairs_equal xs ys ≡ true
    → count_by (log_equal l) xs ≡ count_by (log_equal l) ys
unfolding pairs_equal count_by
pairs_equal-count l [] [] n e = refl
pairs_equal-count l [] (y ∷ ys) n e = absurd (omega arith)
pairs_equal-count l (x ∷ xs) [] n e = cc
pairs_equal-count l (x ∷ xs) (y ∷ ys) n e =
    ground (arith, log_equal_other l x y, pairs_equal-count l xs ys)

count_by-length : (xs : List Log) → count_by (λ l. true) xs ≡ length xs
unfolding count_by
count_by-length [] = refl
count_by-length (x ∷ xs) = ground (arith, count_by-length xs)

length-sort_logs : (xs : List Log) → length (sort_logs xs) ≡ length xs
length-sort_logs xs =
    sym (count_by-length (sort_logs xs))
    ∙ count_by-sort_by (λ l. true) log_before xs
    ∙ count_by-length xs

logs_equal-count :
    (l : Log) (xs ys : List Log)
    → logs_equal xs ys ≡ true
    → count_by (log_equal l) xs ≡ count_by (log_equal l) ys
unfolding logs_equal
logs_equal-count l xs ys e = ground (
  arith,
  length-sort_logs xs,
  length-sort_logs ys,
  pairs_equal-count l (sort_logs xs) (sort_logs ys),
  count_by-sort_by (log_equal l) log_before xs,
  count_by-sort_by (log_equal l) log_before ys,
)

inr_inj : (xs ys : List Log) → ◌≡◌ {A = LogsError ⊎ List Log} (inr xs) (inr ys) → xs ≡ ys
inr_inj xs ys e = cc

not_inr : (x : LogsError) (ys : List Log) → ◌≡◌ {A = LogsError ⊎ List Log} (inl x) (inr ys) → ⊥
not_inr x ys e = cc

compare_logs-count :
    (now : ℕ) (a b : Text) (xs ys : List Log) (p : Pool) (l : Log) (logs : List Log)
    → (compare_logs now a b xs ys p).0 ≡ inr logs
    → (count_by (log_equal l) xs ≡ count_by (log_equal l) logs)
      × (count_by (log_equal l) ys ≡ count_by (log_equal l) logs)
unfolding compare_logs
compare_logs-count now a b xs ys p l logs e = elim (Bool-cases (logs_equal xs ys)) [
  | inr n ↦ absurd (not_inr log_mismatch logs (rw (compare_logs, n) at e))
  | inl y ↦
      let same : sort_logs xs ≡ logs = inr_inj (sort_logs xs) logs (rw (compare_logs, y) at e) in
      let sorted : count_by (log_equal l) xs ≡ count_by (log_equal l) logs =
        sym (count_by-sort_by (log_equal l) log_before xs) ∙ ap (count_by (log_equal l)) same in
      (sorted, sym (logs_equal-count l xs ys y) ∙ sorted)
]

pub copies-some :
    (from_block to_block : ℕ) (l : Log) (q : Provider) (xs : List Log)
    → q.filter_logs from_block to_block ≡ some xs
    → copies from_block to_block l q ≡ some (count_by (log_equal l) xs)
unfolding copies
copies-some from_block to_block l q xs e = rw (copies, e) refl

logs_of-copies :
    (now from_block to_block : ℕ) (ps : List Provider) (p : Pool) (logs : List Log) (l : Log)
    → (logs_of now from_block to_block ps p).0 ≡ inr logs
    → (1 < length ps)
      × All (λ q. copies from_block to_block l q ≡ some (count_by (log_equal l) logs)) (take 2 ps)
unfolding logs_of
logs_of-copies now f t [] p logs l e = absurd (not_inr pool_too_small logs e)
logs_of-copies now f t (a ∷ []) p logs l e = absurd (not_inr pool_too_small logs e)
logs_of-copies now f t (a ∷ b ∷ ps) p logs l e = elim (Option-cases (a.filter_logs f t)) [
  | inl n ↦ absurd (not_inr primary_failed logs (rw (logs_of, n) at e))
  | inr (xs, x) ↦ elim (Option-cases (b.filter_logs f t)) [
    | inl n ↦ absurd (not_inr secondary_failed logs (rw (logs_of, x, n) at e))
    | inr (ys, y) ↦
        let c = compare_logs-count now a.name b.name xs ys p l logs (rw (logs_of, x, y) at e) in
        (
          omega arith,
          (copies-some f t l a xs x ∙ ap some c.0, (copies-some f t l b ys y ∙ ap some c.1, tt)),
        )
  ]
]

-- When the logs of a range of blocks are answered, the first two providers have both answered, and
-- every log stands in the answer as often as in what each of them reported.
pub logs_at_copies :
    (now from_block to_block : ℕ) (p : Pool) (logs : List Log) (l : Log)
    → (logs_at now from_block to_block p).0 ≡ inr logs
    → (1 < length p.providers)
      × All
          (λ q. copies from_block to_block l q ≡ some (count_by (log_equal l) logs))
          (take 2 p.providers)
unfolding logs_at
logs_at_copies now from_block to_block p logs l e =
    logs_of-copies now from_block to_block p.providers p logs l e
