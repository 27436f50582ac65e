-- ===== src/Watcher/Tracker/Ticks.antt =====
-- What a whole tick does to the numbers under a key: one sum over the candidates for each of them.
use usdt_settlement_corridor.Base.{
  ℕ, ◌+◌, ◌≡◌, refl, ◌∙◌, Bool, true, false, ◌&&◌, ◌||◌, not, List, [], ◌∷◌, Option, none, some,
  arith, ◌==◌, if◌then◌else◌, Bool-cases, inl, inr,
}
use usdt_settlement_corridor.Base.Count.{count_by, count_by-nil, count_by-cons, count_by_none}
use usdt_settlement_corridor.Watcher.Tracker.{
  Key, Candidate, Tracker, Outside, has_key, present, at_height, finalize, drop_candidate,
  verify_pending, verify_answer, verify_heights, recheck_answer, handle_post_final_reorg,
  verify_finalized, recheck_heights,
}
use usdt_settlement_corridor.Watcher.Tracker.Counts.{count_key, is_accepted, is_withdrawn}
use usdt_settlement_corridor.Watcher.Tracker.Steps.{
  accepts, leaves, reports, finalize_accepted, finalize_withdrawn, finalize_pending,
  finalize_finalized, drop_pending, reorg_withdrawn, reorg_accepted, reorg_finalized, reorg_pending,
}
use usdt_settlement_corridor.Watcher.Tracker.Heights.{sum_at}

-- The providers agree that the log of a candidate is at its height, or that it is not.
abbrev pub confirmed : Option (List Key) → Candidate → Bool
confirmed none c = false
confirmed (some keys) c = present keys c

abbrev pub missing : Option (List Key) → Candidate → Bool
missing none c = false
missing (some keys) c = not (present keys c)

module _ (k : Key) (out : Outside) where
  -- A candidate under the key that becomes final, one that is no longer tracked, and one that was
  -- final and is withdrawn, when the query of its height has the answer `a`.
  abbrev pub newly : Option (List Key) → Candidate → Bool
  newly a c = has_key k c && (confirmed a c && accepts out c)

  abbrev pub gone : Option (List Key) → Candidate → Bool
  gone a c = has_key k c && (missing a c || (confirmed a c && leaves out c))

  abbrev pub undone : Option (List Key) → Candidate → Bool
  undone a c = has_key k c && (missing a c && reports out c)

  -- The numbers after the verification of pending candidates, `n` of which are newly final and `g`
  -- of which are no longer tracked.
  pub record Verified (n g : ℕ) (t t' : Tracker) : Type 0 where
    pub accepted : count_by (is_accepted k) t'.events ≡ count_by (is_accepted k) t.events + n
    pub withdrawn : count_by (is_withdrawn k) t'.events ≡ count_by (is_withdrawn k) t.events
    pub pending : count_key k t'.pending ≡ (if g == 0 then count_key k t.pending else 0)
    pub finalized : count_key k t'.finalized ≡ (if n == 0 then count_key k t.finalized else 1)

  Verified-none : (t : Tracker) → Verified 0 0 t t
  Verified-none t = record {
    accepted = omega arith;
    withdrawn = refl;
    pending = refl;
    finalized = refl;
  }

  Verified-add :
      (n g m f : ℕ) (t t₁ t₂ : Tracker)
      → Verified n g t t₁
      → Verified m f t₁ t₂
      → Verified (n + m) (g + f) t t₂
  Verified-add n g m f t t₁ t₂ a b = record {
    accepted = omega (arith, a.accepted, b.accepted);
    withdrawn = omega (arith, a.withdrawn, b.withdrawn);
    pending = ground (arith, a.pending, b.pending);
    finalized = ground (arith, a.finalized, b.finalized);
  }

  Verified-drop :
      (c : Candidate) (t : Tracker)
      → Verified
          (if has_key k c && false then 1 else 0)
          (if has_key k c && true then 1 else 0)
          t
          (drop_candidate c.log.key t)
  unfolding drop_candidate
  Verified-drop c t = record {
    accepted = ground arith;
    withdrawn = refl;
    pending = ground (arith, drop_pending k out c t);
    finalized = ground arith;
  }

  Verified-one :
      (keys : List Key) (c : Candidate) (t : Tracker)
      → Verified
          (if newly (some keys) c then 1 else 0)
          (if gone (some keys) c then 1 else 0)
          t
          (if present keys c then finalize out c t else drop_candidate c.log.key t)
  Verified-one keys c t = elim (Bool-cases (present keys c)) [
    | inl p ↦ rw p (record {
      accepted = finalize_accepted k out c t;
      withdrawn = finalize_withdrawn k out c t;
      pending = ground (arith, finalize_pending k out c t);
      finalized = ground (arith, finalize_finalized k out c t);
    })
    | inr n ↦ rw n (Verified-drop c t)
  ]

  Verified-pending :
      (keys : List Key) (cs : List Candidate) (t : Tracker)
      → Verified
          (count_by (newly (some keys)) cs)
          (count_by (gone (some keys)) cs)
          t
          (verify_pending out keys cs t)
  unfolding verify_pending
  Verified-pending keys [] t =
      rw (count_by-nil (newly (some keys)), count_by-nil (gone (some keys))) (Verified-none t)
  Verified-pending keys (c ∷ cs) t =
      let next = if present keys c then finalize out c t else drop_candidate c.log.key t in
      rw (count_by-cons (newly (some keys)) c cs, count_by-cons (gone (some keys)) c cs)
        (Verified-add (if newly (some keys) c then 1 else 0) (if gone (some keys) c then 1 else 0)
          (count_by (newly (some keys)) cs) (count_by (gone (some keys)) cs) t next
          (verify_pending out keys cs next) (Verified-one keys c t) (Verified-pending keys cs next))

  Verified-answer :
      (a : Option (List Key)) (cs : List Candidate) (t : Tracker)
      → Verified (count_by (newly a) cs) (count_by (gone a) cs) t (verify_answer out a cs t)
  unfolding verify_answer
  Verified-answer none cs t =
      rw (count_by_none (newly none) cs (λ c. off (has_key k c))) (Verified-none t)
    where
      off : (b : Bool) → b && false ≡ false
      off b = ground arith
  Verified-answer (some keys) cs t = Verified-pending keys cs t

  -- The whole verification of a list of pending candidates, height by height.
  pub Verified-heights :
      (ready : List Candidate) (hs : List ℕ) (t : Tracker)
      → Verified
          (sum_at (λ h. newly (out.logs_at h)) ready hs)
          (sum_at (λ h. gone (out.logs_at h)) ready hs)
          t
          (verify_heights out ready hs t)
  unfolding verify_heights sum_at
  Verified-heights ready [] t = Verified-none t
  Verified-heights ready (h ∷ hs) t =
      let cs = at_height h ready in
      let next = verify_answer out (out.logs_at h) cs t in
      Verified-add (count_by (newly (out.logs_at h)) cs) (count_by (gone (out.logs_at h)) cs)
        (sum_at (λ h. newly (out.logs_at h)) ready hs) (sum_at (λ h. gone (out.logs_at h)) ready hs)
        t next (verify_heights out ready hs next) (Verified-answer (out.logs_at h) cs t)
        (Verified-heights ready hs next)

  -- The numbers after the finalized candidates are looked for again, `n` of which are withdrawn.
  pub record Rechecked (n : ℕ) (t t' : Tracker) : Type 0 where
    pub accepted : count_by (is_accepted k) t'.events ≡ count_by (is_accepted k) t.events
    pub withdrawn : count_by (is_withdrawn k) t'.events ≡ count_by (is_withdrawn k) t.events + n
    pub pending : t'.pending ≡ t.pending
    pub finalized : count_key k t'.finalized ≡ (if n == 0 then count_key k t.finalized else 0)

  Rechecked-none : (t : Tracker) → Rechecked 0 t t
  Rechecked-none t = record {
    accepted = refl;
    withdrawn = omega arith;
    pending = refl;
    finalized = refl;
  }

  Rechecked-add :
      (n m : ℕ) (t t₁ t₂ : Tracker) → Rechecked n t t₁ → Rechecked m t₁ t₂ → Rechecked (n + m) t t₂
  Rechecked-add n m t t₁ t₂ a b = record {
    accepted = omega (arith, a.accepted, b.accepted);
    withdrawn = omega (arith, a.withdrawn, b.withdrawn);
    pending = b.pending ∙ a.pending;
    finalized = ground (arith, a.finalized, b.finalized);
  }

  Rechecked-one :
      (keys : List Key) (c : Candidate) (t : Tracker)
      → Rechecked
          (if undone (some keys) c then 1 else 0)
          t
          (if present keys c then t else handle_post_final_reorg out c t)
  Rechecked-one keys c t = elim (Bool-cases (present keys c)) [
    | inl p ↦ rw (p, off (has_key k c)) (Rechecked-none t)
    | inr n ↦ rw n (record {
      accepted = reorg_accepted k out c t;
      withdrawn = reorg_withdrawn k out c t;
      pending = reorg_pending k out c t;
      finalized = ground (arith, reorg_finalized k out c t);
    })
  ]
    where
      off : (b : Bool) → b && false ≡ false
      off b = ground arith

  Rechecked-finalized :
      (keys : List Key) (cs : List Candidate) (t : Tracker)
      → Rechecked (count_by (undone (some keys)) cs) t (verify_finalized out keys cs t)
  unfolding verify_finalized
  Rechecked-finalized keys [] t = rw (count_by-nil (undone (some keys))) (Rechecked-none t)
  Rechecked-finalized keys (c ∷ cs) t =
      let next = if present keys c then t else handle_post_final_reorg out c t in
      rw (count_by-cons (undone (some keys)) c cs) (
        Rechecked-add (if undone (some keys) c then 1 else 0) (count_by (undone (some keys)) cs) t
          next (verify_finalized out keys cs next) (Rechecked-one keys c t)
          (Rechecked-finalized keys cs next))

  Rechecked-answer :
      (a : Option (List Key)) (cs : List Candidate) (t : Tracker)
      → Rechecked (count_by (undone a) cs) t (recheck_answer out a cs t)
  unfolding recheck_answer
  Rechecked-answer none cs t =
      rw (count_by_none (undone none) cs (λ c. off (has_key k c))) (Rechecked-none t)
    where
      off : (b : Bool) → b && false ≡ false
      off b = ground arith
  Rechecked-answer (some keys) cs t = Rechecked-finalized keys cs t

  pub Rechecked-heights :
      (cs : List Candidate) (hs : List ℕ) (t : Tracker)
      → Rechecked (sum_at (λ h. undone (out.logs_again h)) cs hs) t (recheck_heights out cs hs t)
  unfolding recheck_heights sum_at
  Rechecked-heights cs [] t = Rechecked-none t
  Rechecked-heights cs (h ∷ hs) t =
      let next = recheck_answer out (out.logs_again h) (at_height h cs) t in
      Rechecked-add (count_by (undone (out.logs_again h)) (at_height h cs))
        (sum_at (λ h. undone (out.logs_again h)) cs hs) t next (recheck_heights out cs hs next)
        (Rechecked-answer (out.logs_again h) (at_height h cs) t) (Rechecked-heights cs hs next)
