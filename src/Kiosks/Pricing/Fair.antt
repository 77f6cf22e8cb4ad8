-- ===== src/Kiosks/Pricing/Fair.antt =====
-- Prices that are fair: duplex dearer by the sheet, and cheaper by the page.
use printvendo_backend.Prelude.{
  Bool-cases, get_or, pos, ◌*ℤ◌, ◌≤ℤ◌, no_price_given, Error, bad_request, Result, ok, err,
  lift-each, ◌≡◌, refl, ◌⊎◌, inl, inr, Option, none, some, arith,
}
use printvendo_backend.Money.{Money}
use printvendo_backend.Kiosks.Models.{Kiosk}
use printvendo_backend.Kiosks.Pricing.{
  Prices, BandSource, default_prices, effective_prices, Pricing, read_pricing, Asked, normalise,
  check_pair, priced, write_prices, set_normalised, set_pricing, nothing_asked, kept_or,
}

-- A sheet printed on both sides costs no less than one side of it, and no more than two.
abbrev pub IsFairPair : Money → Money → Type 0
IsFairPair one_side both_sides = (one_side ≤ℤ both_sides) × (both_sides ≤ℤ one_side *ℤ pos 2)

pub record IsFair (p : Prices) : Type 0 where
  pub bw : IsFairPair p.bw_single p.bw_double
  pub color : IsFairPair p.color_single p.color_double

check_pair-fair :
    (one both : Money) {u : Unit {0}} → check_pair one both ≡ ok u → IsFairPair one both
unfolding check_pair
check_pair-fair one both h = ground arith

kept_price : (o old : Option Money) (d : Money) → get_or (kept_or o old) d ≡ get_or o (get_or old d)
kept_price none old d = refl
kept_price (some m) old d = refl

-- What a request for prices has done.
abbrev Fairly : BandSource → Kiosk → Result Pricing × Kiosk → Type 0
Fairly bands k (answer, k') =
    ((e : Error) × (answer ≡ err e) × (k' ≡ k))
    ⊎ (IsFair (effective_prices k') × (answer ≡ ok (read_pricing bands k')))

refused : (bands : BandSource) (k : Kiosk) (e : Error) → Fairly bands k (err e, k)
refused bands k e = inl (e, refl, refl)

priced-IsFair :
    (k : Kiosk) (bs bd cs cd : Option Money)
    → let now = effective_prices k in
      IsFairPair (get_or bs now.bw_single) (get_or bd now.bw_double)
      → IsFairPair (get_or cs now.color_single) (get_or cd now.color_double)
      → IsFair (effective_prices (priced k bs bd cs cd))
unfolding effective_prices
priced-IsFair k bs bd cs cd bw color = record {
  bw =
      rw
        (
          kept_price bs k.price_bw_single default_prices.bw_single,
          kept_price bd k.price_bw_double default_prices.bw_double,
        )
        bw;
  color =
      rw
        (
          kept_price cs k.price_color_single default_prices.color_single,
          kept_price cd k.price_color_double default_prices.color_double,
        )
        color;
}

write_prices-Fairly :
    (bands : BandSource) (bs bd cs cd : Option Money) (k : Kiosk)
    → Fairly bands k (write_prices bands bs bd cs cd k)
unfolding write_prices
write_prices-Fairly bands bs bd cs cd k =
    lift-each (Fairly bands k)
      (check_pair (get_or bs (effective_prices k).bw_single)
        (get_or bd (effective_prices k).bw_double))
      _ k (refused bands k)
      (λ _ bw.
        lift-each (Fairly bands k)
          (check_pair (get_or cs (effective_prices k).color_single)
            (get_or cd (effective_prices k).color_double))
          _ k (refused bands k)
          (λ _ color. inr (
            priced-IsFair k bs bd cs cd (check_pair-fair _ _ bw) (check_pair-fair _ _ color),
            refl,
          )))

set_normalised-Fairly :
    (bands : BandSource) (bs bd cs cd : Result (Option Money)) (k : Kiosk)
    → Fairly bands k (set_normalised bands bs bd cs cd k)
unfolding set_normalised
set_normalised-Fairly bands (err e) bd cs cd k = refused bands k e
set_normalised-Fairly bands (ok bs) (err e) cs cd k = refused bands k e
set_normalised-Fairly bands (ok bs) (ok bd) (err e) cd k = refused bands k e
set_normalised-Fairly bands (ok bs) (ok bd) (ok cs) (err e) k = refused bands k e
set_normalised-Fairly bands (ok bs) (ok bd) (ok cs) (ok cd) k =
    write_prices-Fairly bands bs bd cs cd k

-- When prices are accepted the kiosk's prices are fair, whichever of them were set; the answer is
-- what students are charged from then on. When they are refused the kiosk is as it was.
pub set_pricing-IsFair :
    (bands : BandSource) (asked : Asked) (k : Kiosk)
    → let (answer, k') = set_pricing bands asked k in
      ((e : Error) × (answer ≡ err e) × (k' ≡ k))
      ⊎ (IsFair (effective_prices k') × (answer ≡ ok (read_pricing bands k')))
unfolding set_pricing
set_pricing-IsFair bands asked k = elim (Bool-cases (nothing_asked asked)) [
  | inl nothing ↦ rw nothing (refused bands k (bad_request no_price_given))
  | inr something ↦
      let band = bands.band_for k in
      rw something (
        set_normalised-Fairly bands (normalise band.floor_bw band.ceiling_bw asked.bw_single)
          (normalise band.floor_bw band.ceiling_bw asked.bw_double)
          (normalise band.floor_color band.ceiling_color asked.color_single)
          (normalise band.floor_color band.ceiling_color asked.color_double) k)
]
