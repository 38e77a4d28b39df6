-- ===== src/Booking/Additions/Laws.antt =====
-- What extra tubing may change in an estimate.
use whatsapp_atendimentos_ag.Prelude.{
  ℕ, ◌+◌, ◌-◌, ◌*◌, ◌≤◌, ◌<◌, ◌≡◌, true, Option, some, arith, is_none, get_or,
}
use whatsapp_atendimentos_ag.Booking.Types.{
  Cents, Hundredths, quantize, BookingRequirements, ServiceEstimate, metro,
}
use whatsapp_atendimentos_ag.Booking.Business.{TextTools, Service, CatalogItem}
use whatsapp_atendimentos_ag.Booking.Additions.{
  apply_catalog_additions, catalog_pricing_unit, catalog_charge_quantity,
}

-- An estimate as the estimator leaves it: a price exactly when no person has to quote.
abbrev pub IsSettled : ServiceEstimate → Type 0
IsSettled e = is_none e.estimated_price ≡ e.requires_human_quote

module _ (tools : TextTools) (item : Option CatalogItem) (service : Service)
    (q : BookingRequirements) (e : ServiceEstimate) where
  -- Extra tubing neither clears nor adds the need of a human quote, keeps the duration, and never
  -- lowers a price that it leaves set.
  pub additions_keep :
      IsSettled e
      → ((apply_catalog_additions tools item service q e).requires_human_quote
          ≡ e.requires_human_quote)
        × ((apply_catalog_additions tools item service q e).estimated_duration_minutes
            ≡ e.estimated_duration_minutes)
        × ((p : Cents)
            → (apply_catalog_additions tools item service q e).estimated_price ≡ some p
            → get_or e.estimated_price 0 ≤ p)
  unfolding apply_catalog_additions
  additions_keep s = (ground arith, ground arith, λ p h. ground arith)

  -- Tubing charged by the metre: a known length above the included one costs the extra length at
  -- the price of the catalog item, rounded half to even to the cent.
  pub additions_by_metre :
      (it : CatalogItem) (included meters : Hundredths) (price base : Cents)
      → item ≡ some it
      → catalog_pricing_unit tools it.unit_label (some metro) ≡ metro
      → it.price ≡ some price
      → service.asks_tubing_length ≡ true
      → service.included_tubing_meters ≡ some included
      → q.tubing_meters ≡ some meters
      → included < meters
      → e.estimated_price ≡ some base
      → (apply_catalog_additions tools item service q e).estimated_price
        ≡ some (base + quantize ((meters - included) * price))
  unfolding apply_catalog_additions catalog_charge_quantity quantize
  additions_by_metre it included meters price base hi hu hp ha hs hq hl hb = ground arith

-- Rounding moves an amount by at most half a cent.
pub quantize_bounds : (n : ℕ) → (100 * quantize n ≤ n + 50) × (n ≤ 100 * quantize n + 50)
unfolding quantize
quantize_bounds n = (ground arith, ground arith)
