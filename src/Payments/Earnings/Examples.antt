-- ===== src/Payments/Earnings/Examples.antt =====
-- Tests and instances of the theorem on earnings.
use printvendo_backend.Prelude.{
  pos, ◌+ℤ◌, ◌-ℤ◌, ℕ, ◌/◌, ◌≡◌, refl, true, none, some, List, [], ◌∷◌, map,
}
use printvendo_backend.Money.{as_money}
use printvendo_backend.Payments.Models.{wallet, failed, partially_refunded, Payment}
use printvendo_backend.Payments.Refunds.Examples.{paid_order}
use printvendo_backend.Payments.Earnings.{
  Earnings, earnings_of, total, figures, earnings_for_kiosks, earnings_by_kiosk, DayEarnings,
  earnings_by_day,
}
use printvendo_backend.Payments.Earnings.Sums.{added}
use printvendo_backend.Payments.Earnings.Agree.{reports_agree}

-- Fifty rupees on the first day, thirty of them given back, and twenty at another kiosk two days on.
abbrev takings : List Payment
takings =
    record paid_order { status = partially_refunded; refunded_inr = pos 3000 }
    ∷ record paid_order {
      id = 2;
      kiosk_id = some 8;
      source = wallet;
      amount_inr = pos 2000;
      captured_at = some 200000;
    }
    ∷ record paid_order { id = 3; status = failed }
    ∷ []

abbrev by_utc : ℕ → ℕ
by_utc t = t / 86400

abbrev one_sale : Earnings
one_sale = record {
  gross_inr = pos 5000;
  refunded_inr = pos 3000;
  net_inr = pos 2000;
  order_count = 1;
}

abbrev quiet : Earnings
quiet = record { gross_inr = pos 0; refunded_inr = pos 0; net_inr = pos 0; order_count = 0 }

abbrev wallet_sale : Earnings
wallet_sale = record quiet { gross_inr = pos 2000; net_inr = pos 2000; order_count = 1 }

abbrev three_days : List DayEarnings
three_days =
    record { day = 0; earnings = one_sale }
    ∷ record { day = 1; earnings = quiet }
    ∷ record { day = 2; earnings = wallet_sale }
    ∷ []

three_days_series : earnings_by_day by_utc takings (7 ∷ 8 ∷ []) none none ≡ some three_days
unfolding earnings_by_day figures total earnings_of as_money ◌+ℤ◌ ◌-ℤ◌
three_days_series = refl

reports_agree_example :
    (added (map (λ e. e.earnings) three_days)
      ≡ earnings_for_kiosks takings (7 ∷ 8 ∷ []) none none true)
    × (added (map (λ (e : ℕ × Earnings). e.1) (earnings_by_kiosk takings (7 ∷ 8 ∷ []) none none))
        ≡ earnings_for_kiosks takings (7 ∷ 8 ∷ []) none none true)
reports_agree_example =
    reports_agree by_utc takings (7 ∷ 8 ∷ []) none none three_days three_days_series
