-- ===== src/Gateway/Pricing/Sums.antt =====
-- A quote adds up, for every int64 amount, and its fee is at the floor or above.
use usdt_settlement_corridor.Base.{
  ℕ, zero, suc, ◌*◌, ◌/◌, ◌^◌, ◌≤◌, ◌<◌, ◌≡◌, refl, sym, ap, subst, ◌∙◌, ◌⊎◌, false, some, arith,
  if◌then◌else◌, ltb, Bool-cases, Option-cases, inl, inr,
}
use usdt_settlement_corridor.Base.Int.{
  ℤ, pos, negsuc, pos_part, neg_part, ◌+ℤ◌, ◌-ℤ◌, sub64, wrap64, wrap64_fits, wrap64-IsInt64,
  IsInt64, leb_ℤ, int_laws, parts_zero,
}
use usdt_settlement_corridor.Gateway.Pricing.{
  Tier, direct, standard, sweep, unknown, network_fee_units, rate_in, rate_for, Quote, no_quote,
  quote, QuoteError, unknown_tier, non_positive_amount, amount_too_small, unreachable, mul64,
  quot64, fee_of, with_fee, compute_quote,
}

-- Between the floor and a hundred-thousandth of 2^63.
abbrev pub IsFee : ℤ → Type 0
IsFee fee = (neg_part fee ≡ 0) × (1_800_000 ≤ pos_part fee) × (pos_part fee ≤ 92_233_720_368_548)

mul64-IsInt64 : (a : ℤ) (n : ℕ) → IsInt64 (mul64 a n)
unfolding mul64
mul64-IsInt64 (pos m) n = wrap64-IsInt64 (pos (m * n))
mul64-IsInt64 (negsuc m) zero = (omega arith, omega arith)
mul64-IsInt64 (negsuc m) (suc n) = wrap64-IsInt64 (pos 0 -ℤ pos (suc m * suc n))

quot64_small : (a : ℤ) → IsInt64 a → pos_part (quot64 a 100_000) ≤ 92_233_720_368_548
unfolding quot64
quot64_small (pos m) h = omega (arith, h.1)
quot64_small (negsuc m) h = omega (int_laws, parts_zero (pos 0 -ℤ pos (suc m / 100_000)))

fee_of-IsFee : (amount : ℤ) (rate : ℕ) → IsFee (fee_of amount rate)
unfolding fee_of
fee_of-IsFee amount rate =
    ground (arith, quot64_small (mul64 amount rate) (mul64-IsInt64 amount rate))

-- An amount less a fee and a network fee, in int64, is what it is in the integers.
sub64_fee :
    (amount fee net : ℤ)
    → IsInt64 amount
    → neg_part amount ≡ 0
    → IsFee fee
    → neg_part net ≡ 0
    → pos_part net ≤ 2_540_000
    → sub64 (sub64 amount fee) net ≡ (amount -ℤ fee) -ℤ net
unfolding sub64
sub64_fee amount fee net h z f n m =
    let once = wrap64_fits (amount -ℤ fee) (
      omega (int_laws, h.0, h.1, z, f.0, f.1, f.2),
      omega (int_laws, h.0, h.1, z, f.0, f.1, f.2),
    ) in
    ap (λ x. wrap64 (x -ℤ net)) once
    ∙ wrap64_fits ((amount -ℤ fee) -ℤ net) (
      omega (int_laws, h.0, h.1, z, f.0, f.1, f.2, n, m),
      omega (int_laws, h.0, h.1, z, f.0, f.1, f.2, n, m),
    )

-- The schedule: tenths of a basis point for an amount, by its dollars.
unfoldable pub scheduled : ℕ → ℕ
scheduled dollars =
    if ltb dollars 1_000
    then 400
    else if ltb dollars 10_000
    then 250
    else if ltb dollars 100_000
    then 120
    else if ltb dollars 1_000_000
    then 60
    else 35

-- The share of an amount that the schedule takes, in millionths, rounded down.
abbrev pub share : ℕ → ℕ
share n = n * scheduled (n / 1_000_000) / 100_000

-- The fee is the share, or the floor where that is more, unless the product is beyond int64.
abbrev pub IsPriced : ℤ → ℤ → Type 0
IsPriced amount fee =
    (2 ^ 63 ≤ pos_part amount * scheduled (pos_part amount / 1_000_000))
    ⊎ (fee
        ≡ pos (
            if ltb (share (pos_part amount)) 1_800_000 then 1_800_000 else share (pos_part amount)))

-- Where the product with the rate is an int64, the fee is the rate's share, rounded down, or the floor.
pub fee_of_exact :
    (n rate : ℕ)
    → n * rate < 2 ^ 63
    → fee_of (pos n) rate
      ≡ pos (if ltb (n * rate / 100_000) 1_800_000 then 1_800_000 else n * rate / 100_000)
unfolding fee_of quot64 mul64
fee_of_exact n rate h =
    rw (wrap64_fits (pos (n * rate)) (omega (arith, h), omega (arith, h))) (ground arith)

-- The brackets are the schedule.
rate_for-scheduled : (n : ℕ) → rate_for (pos n) ≡ some (scheduled (n / 1_000_000))
unfolding rate_for rate_in scheduled
rate_for-scheduled n = ground arith

-- Whether the product with the rate is an int64 or not.
fee_of-priced :
    (n rate : ℕ)
    → rate_for (pos n) ≡ some rate
    → (2 ^ 63 ≤ n * scheduled (n / 1_000_000))
      ⊎ (fee_of (pos n) rate ≡ pos (if ltb (share n) 1_800_000 then 1_800_000 else share n))
fee_of-priced n rate r =
    let same = same_rate _ _ (sym (rate_for-scheduled n) ∙ r) in
    elim (Bool-cases (ltb (n * scheduled (n / 1_000_000)) (2 ^ 63))) [
      | inr above ↦ inl (ground arith)
      | inl below ↦ inr (rw (sym same) (fee_of_exact n (scheduled (n / 1_000_000)) (ground arith)))
    ]
  where
    same_rate : (a b : ℕ) → some a ≡ some b → a ≡ b
    same_rate a b e = cc

amount_priced :
    (amount : ℤ) (rate : ℕ)
    → neg_part amount ≡ 0
    → rate_for amount ≡ some rate
    → IsPriced amount (fee_of amount rate)
amount_priced (pos n) rate p r = fee_of-priced n rate r
amount_priced (negsuc n) rate p r = absurd (omega (arith, p))

-- What a quote promises.
pub record AddsUp (tier : Tier) (amount : ℤ) (q : Quote) : Type 0 where
  pub amount_in : q.amount_in ≡ amount
  pub sum : q.amount_in ≡ (q.amount_out +ℤ q.fee_units) +ℤ q.network_fee
  pub fee : IsFee q.fee_units
  pub priced : IsPriced amount q.fee_units
  pub network_fee : network_fee_units tier ≡ some q.network_fee
  pub out : 1 ≤ pos_part q.amount_out

abbrev quote_of : Tier → ℤ → ℤ → ℤ → Quote
quote_of tier amount net fee = record {
  tier = tier;
  amount_in = amount;
  fee_units = fee;
  network_fee = net;
  amount_out = sub64 (sub64 amount fee) net;
}

with_fee_quote :
    (tier : Tier) (amount net fee : ℤ) (q : Quote)
    → with_fee tier amount net fee ≡ quote q
    → (leb_ℤ (sub64 (sub64 amount fee) net) (pos 0) ≡ false) × (quote_of tier amount net fee ≡ q)
unfolding with_fee
with_fee_quote tier amount net fee q h =
    elim (Bool-cases (leb_ℤ (sub64 (sub64 amount fee) net) (pos 0))) [
      | inl t ↦ absurd (no_quote_here (rw t at h))
      | inr f ↦ (f, same_quote (quote_of tier amount net fee) q (rw f at h))
    ]
  where
    no_quote_here : no_quote amount_too_small ≡ quote q → ⊥
    no_quote_here e = cc

    same_quote : (x y : Quote) → quote x ≡ quote y → x ≡ y
    same_quote x y e = cc

with_fee-AddsUp :
    (tier : Tier) (amount net fee : ℤ) (q : Quote)
    → IsInt64 amount
    → neg_part amount ≡ 0
    → IsFee fee
    → IsPriced amount fee
    → network_fee_units tier ≡ some net
    → neg_part net ≡ 0
    → pos_part net ≤ 2_540_000
    → with_fee tier amount net fee ≡ quote q
    → AddsUp tier amount q
with_fee-AddsUp tier amount net fee q h z f priced e n m made =
    let left = sub64_fee amount fee net h z f n m in
    let (above, is) = with_fee_quote tier amount net fee q made in
    let out = sub64 (sub64 amount fee) net in
    subst (AddsUp tier amount) is (record {
      amount_in = refl;
      sum = omega (int_laws, ap pos_part left, ap neg_part left);
      fee = f;
      priced = priced;
      network_fee = e;
      out = ground (arith, above, parts_zero out);
    })

pub known_fee :
    (tier : Tier) (net : ℤ)
    → network_fee_units tier ≡ some net
    → (neg_part net ≡ 0) × (pos_part net ≤ 2_540_000)
known_fee direct net e = ground arith
known_fee standard net e = ground arith
known_fee sweep net e = ground arith
known_fee unknown net e = cc

-- A quote comes from a tier, an amount that is not negative, and a rate.
record Priced (tier : Tier) (amount : ℤ) (q : Quote) : Type 0 where
  net : ℤ
  rate : ℕ
  charged : network_fee_units tier ≡ some net
  positive : neg_part amount ≡ 0
  rated : rate_for amount ≡ some rate
  made : with_fee tier amount net (fee_of amount rate) ≡ quote q

compute_quote-Priced :
    (tier : Tier) (amount : ℤ) (q : Quote)
    → compute_quote tier amount ≡ quote q
    → Priced tier amount q
unfolding compute_quote
compute_quote-Priced tier amount q h = elim (Option-cases (network_fee_units tier)) [
  | inl e ↦ absurd (never unknown_tier (ground arith))
  | inr (net, e) ↦ elim (Bool-cases (leb_ℤ amount (pos 0))) [
    | inl t ↦ absurd (never non_positive_amount (ground arith))
    | inr above ↦ elim (Option-cases (rate_for amount)) [
      | inl r ↦ absurd (never unreachable (ground arith))
      | inr (rate, r) ↦ record {
        net = net;
        rate = rate;
        charged = e;
        positive = ground (arith, parts_zero amount);
        rated = r;
        made = ground arith;
      }
    ]
  ]
]
  where
    never : (e : QuoteError) → no_quote e ≡ quote q → ⊥
    never e g = cc

-- For every int64 amount and every tier: if ComputeQuote gives a quote, then the amount in is exactly
-- the amount out, the fee and the network fee of the tier, the amount out is positive, and the fee is
-- at least $1.80; and unless the amount times its rate is beyond int64, the fee is the share of the
-- amount by the schedule (40, 25, 12, 6 and 3.5 basis points from 0, 1,000, 10,000, 100,000 and
-- 1,000,000 dollars on), rounded down, or $1.80 where that is more.
pub compute_quote-AddsUp :
    (tier : Tier) (amount : ℤ) (q : Quote)
    → IsInt64 amount
    → compute_quote tier amount ≡ quote q
    → AddsUp tier amount q
compute_quote-AddsUp tier amount q h made =
    let p = compute_quote-Priced tier amount q made in
    with_fee-AddsUp tier amount p.net (fee_of amount p.rate) q h p.positive
      (fee_of-IsFee amount p.rate) (amount_priced amount p.rate p.positive p.rated) p.charged
      (known_fee tier p.net p.charged).0 (known_fee tier p.net p.charged).1 p.made

-- An amount that is quoted is not negative.
pub positive_in :
    (tier : Tier) (amount : ℤ) (q : Quote)
    → compute_quote tier amount ≡ quote q
    → neg_part amount ≡ 0
positive_in tier amount q made = (compute_quote-Priced tier amount q made).positive
