-- ===== src/Dataplane/Concurrent/Kept.antt =====
-- Tasks at the same time, in either mode, leave an offer of the graph as it was: what they insert is
-- about other datasets.
pub mod Served
pub mod Answered
pub mod Decided
pub mod Laws
use ds_sql_dps_rs.Prelude.{
  String, ℕ, zero, suc, ◌+◌, true, false, ◌≡◌, ◌≢◌, refl, ap, sym, ◌∙◌, List, [], ◌∷◌, All, All-map,
  ok, err, arith, Bool-cases, Result-cases, inl, inr,
}
use ds_sql_dps_rs.Rdf.{Quad}
use ds_sql_dps_rs.Oxigraph.{Oxigraph, IsInMemory}
use ds_sql_dps_rs.ConfigGraph.Offer.{FileOffer}
use ds_sql_dps_rs.ConfigGraph.Store.{ConfigGraph, ConfigGraphError, file_path}
use ds_sql_dps_rs.ConfigGraph.Seed.{offer_quads}
use ds_sql_dps_rs.ConfigGraph.Seed.Quads.{IsVocabulary, next_node}
use ds_sql_dps_rs.ConfigGraph.Seed.Below.{next_node-ge}
use ds_sql_dps_rs.ConfigGraph.Seed.HasOffer.{offer_graph}
use ds_sql_dps_rs.ConfigGraph.Seed.Laws.{built}
use ds_sql_dps_rs.ConfigGraph.Ids.{has_hash, plain-IsApart}
use ds_sql_dps_rs.ConfigGraph.RoundTrip.{IsApart}
use ds_sql_dps_rs.ConfigGraph.RoundTrip.Kept.{
  Harmless, Kept, Kept-ReadsBack, Kept-blanks, insert-Kept, offer_graph-Harmless,
}
use ds_sql_dps_rs.Dataplane.Handler.{World, DataFlow, FileOfferHandler, auto_offer}
use ds_sql_dps_rs.Dataplane.Public.{Engine}
use ds_sql_dps_rs.Dataplane.System.Good.{IsValidFlow}
use ds_sql_dps_rs.Dataplane.Concurrent.{
  Visit, Task, get_asked, get_checked, get_permitted, get_located, get_done, start_asked,
  start_seeding, start_admitted, start_done, stop_asked, stop_done, look, seed, advance, turn,
}
use ds_sql_dps_rs.Dataplane.Concurrent.Explained.{
  Continues, checked, permitted, located, done, check-Continues, permit-Continues, locate-Continues,
}

look-seeding :
    (O : Oxigraph) (h : FileOfferHandler) (flow : DataFlow) (w : World O) (e : ConfigGraphError)
    (quads : List Quad) (n : ℕ)
    → file_path O flow.dataset_id w.graph ≡ err e
    → h.tck_mode ≡ true
    → offer_quads O w.graph.blanks (auto_offer O h flow) ≡ ok (quads, n)
    → look O h flow w ≡ (
      start_seeding flow quads,
      record w { graph = record { store = w.graph.store; blanks = n } },
    )
look-seeding O h flow w e quads n missing tck made = rw (look, missing, tck, made)

module _ (O : Oxigraph) (M : IsInMemory O) (V : IsVocabulary O) (floor : ℕ) (offer : FileOffer)
    (plain : has_hash offer.dataset_id ≡ false) where
  -- What a task is about, or still inserts, leaves the offer alone.
  abbrev pub Careful : Task → Type 0
  Careful (start_asked flow) = IsValidFlow O flow
  Careful (start_seeding flow quads) = All (Harmless O M V floor offer.dataset_id) quads
  Careful (get_asked v) = Unit
  Careful (get_checked v) = Unit
  Careful (get_permitted v) = Unit
  Careful (get_located v path) = Unit
  Careful (get_done v r) = Unit
  Careful (start_admitted flow) = Unit
  Careful (start_done flow r) = Unit
  Careful (stop_asked flow) = Unit
  Careful (stop_done flow) = Unit

  Continues-Careful : {v : Visit} {t : Task} → Continues v t → Careful t
  Continues-Careful checked = tt
  Continues-Careful permitted = tt
  Continues-Careful (located path) = tt
  Continues-Careful (done r) = tt

  -- What a step leaves behind.
  abbrev pub Leaves : Task × World O → Type 0
  Leaves next = Kept O M V floor offer next.1.graph × Careful next.0

  -- An unknown dataset is not the offer's.
  unknown-IsApart :
      (flow : DataFlow) (g : ConfigGraph O) (e : ConfigGraphError)
      → Kept O M V floor offer g
      → IsValidFlow O flow
      → file_path O flow.dataset_id g ≡ err e
      → IsApart flow.dataset_id offer.dataset_id
  unknown-IsApart flow g e kept (D, plain_flow) missing =
      plain-IsApart flow.dataset_id offer.dataset_id
        (λ same.
          let found = (Kept-ReadsBack O M V floor offer g kept).path in
          let clash = ap (λ i. file_path O i g) same in cc (missing, found, clash))
        plain_flow plain

  look-Leaves :
      (h : FileOfferHandler) (flow : DataFlow) (w : World O)
      → Kept O M V floor offer w.graph
      → IsValidFlow O flow
      → Leaves (look O h flow w)
  look-Leaves h flow w kept valid = elim (Result-cases (file_path O flow.dataset_id w.graph)) [
    | inl (path, p) ↦ rw (p, look) (kept, tt)
    | inr (e, p) ↦ elim (Bool-cases h.tck_mode) [
      | inr q ↦ rw (p, q, look) (kept, tt)
      | inl q ↦
          let new = auto_offer O h flow in
          let k = w.graph.blanks in
          rw (look-seeding O h flow w e _ _ p q (built O M V k new valid.0)) (
            Kept-blanks O M V floor (next_node O k new.permissions) offer w.graph kept
                (next_node-ge O M.blank_injective k new.permissions),
            offer_graph-Harmless O M V floor offer new w.graph kept
                (unknown-IsApart flow w.graph e kept valid p),
          )
    ]
  ]

  seed-Leaves :
      (flow : DataFlow) (q : Quad) (rest : List Quad) (w : World O)
      → Kept O M V floor offer w.graph
      → All (Harmless O M V floor offer.dataset_id) (q ∷ rest)
      → Leaves (seed O flow q rest w)
  seed-Leaves flow q rest w kept (harmless, others) =
      elim (Result-cases (O.insert w.graph.store q)) [
        | inr (e, p) ↦ rw (p, seed) (kept, tt)
        | inl (s, p) ↦
            rw (p, seed) (insert-Kept O M V floor offer w.graph q s kept harmless p, others)
      ]

  module _ (E : Engine) (uuid : ℕ → String) (h : FileOfferHandler) where
    advance-Leaves :
        (t : Task) (w : World O)
        → Kept O M V floor offer w.graph
        → Careful t
        → Leaves (advance O E uuid h t w)
    unfolding advance
    advance-Leaves (get_asked v) w kept c = (kept, Continues-Careful (check-Continues O v w))
    advance-Leaves (get_checked v) w kept c =
        (kept, Continues-Careful (permit-Continues O E v w.graph))
    advance-Leaves (get_permitted v) w kept c =
        (kept, Continues-Careful (locate-Continues O v w.graph))
    advance-Leaves (get_located v path) w kept c = (kept, tt)
    advance-Leaves (get_done v r) w kept c = (kept, tt)
    advance-Leaves (start_asked flow) w kept c = look-Leaves h flow w kept c
    advance-Leaves (start_seeding flow []) w kept c = (kept, tt)
    advance-Leaves (start_seeding flow (q ∷ rest)) w kept c = seed-Leaves flow q rest w kept c
    advance-Leaves (start_admitted flow) w kept c = (kept, tt)
    advance-Leaves (start_done flow r) w kept c = (kept, tt)
    advance-Leaves (stop_asked flow) w kept c = (kept, tt)
    advance-Leaves (stop_done flow) w kept c = (kept, tt)

    pub turn-Leaves :
        (n : ℕ) (ts : List Task) (w : World O)
        → Kept O M V floor offer w.graph
        → All Careful ts
        → Kept O M V floor offer (turn O E uuid h n ts w).1.graph
          × All Careful (turn O E uuid h n ts w).0
    unfolding turn
    turn-Leaves n [] w kept c = (kept, tt)
    turn-Leaves zero (t ∷ ts) w kept (c, cs) =
        let next = advance-Leaves t w kept c in (next.0, (next.1, cs))
    turn-Leaves (suc n) (t ∷ ts) w kept (c, cs) =
        let next = turn-Leaves n ts w kept cs in (next.0, (c, next.1))
