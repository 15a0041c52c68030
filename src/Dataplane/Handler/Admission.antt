-- ===== src/Dataplane/Handler/Admission.antt =====
-- dataplane/src/handler.rs: the three ways through the test at the head of `on_start`.
use ds_sql_dps_rs.Prelude.{String, ◌<>◌, ℕ, ◌≡◌, true, false, ok, err}
use ds_sql_dps_rs.Oxigraph.{Oxigraph}
use ds_sql_dps_rs.ConfigGraph.Offer.{PathBuf}
use ds_sql_dps_rs.ConfigGraph.Store.{ConfigGraph, ConfigGraphError, display, file_path}
use ds_sql_dps_rs.ConfigGraph.Seed.{seed_offer}
use ds_sql_dps_rs.Dataplane.Tokens.{issue}
use ds_sql_dps_rs.Dataplane.Handler.{
  World, DataFlow, FileOfferHandler, HandlerError, not_supported, auto_offer, status_message, admit,
  on_start,
}

abbrev pub unknown_dataset : DataFlow → ConfigGraphError → HandlerError
unknown_dataset flow e =
    not_supported ("unknown dataset '" <> (flow.dataset_id <> ("': " <> display e)))

module _ (O : Oxigraph) (h : FileOfferHandler) (flow : DataFlow) where
  pub admit-known :
      (g : ConfigGraph O) (path : PathBuf)
      → file_path O flow.dataset_id g ≡ ok path
      → admit O h flow g ≡ (ok tt, g)
  unfolding admit
  admit-known g path found = rw (found, admit)

  pub admit-refused :
      (g : ConfigGraph O) (e : ConfigGraphError)
      → file_path O flow.dataset_id g ≡ err e
      → h.tck_mode ≡ false
      → admit O h flow g ≡ (err (unknown_dataset flow e), g)
  unfolding admit
  admit-refused g e missing normal = rw (missing, normal, admit)

  pub admit-seeded :
      (g g' : ConfigGraph O) (e : ConfigGraphError)
      → file_path O flow.dataset_id g ≡ err e
      → h.tck_mode ≡ true
      → seed_offer O (auto_offer O h flow) g ≡ (ok tt, g')
      → admit O h flow g ≡ (ok tt, g')
  unfolding admit
  admit-seeded g g' e missing tck seeded = rw (missing, tck, admit, seeded)

  module _ (uuid : ℕ → String) (w : World O) where
    -- The world after a start that was admitted to the graph `g`.
    abbrev pub issued_world : ConfigGraph O → World O
    issued_world g = record { graph = g; tokens = (issue uuid flow.id flow.dataset_id w.tokens).1 }

    pub on_start-admitted :
        (g : ConfigGraph O)
        → admit O h flow w.graph ≡ (ok tt, g)
        → on_start O uuid h flow w
          ≡ (ok (status_message O h flow (uuid w.tokens.issued)), issued_world g)
    unfolding on_start issue
    on_start-admitted g e = rw (e, on_start, e)

    pub on_start-refused :
        (x : HandlerError)
        → admit O h flow w.graph ≡ (err x, w.graph)
        → on_start O uuid h flow w ≡ (err x, w)
    unfolding on_start
    on_start-refused x e = rw (e, on_start, e)
