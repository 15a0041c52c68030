-- ===== src/Dataplane/Concurrent/Since.antt =====
-- What holds of the tasks that were fresh at some moment.
use ds_sql_dps_rs.Prelude.{List, [], ◌∷◌}
use ds_sql_dps_rs.Dataplane.Concurrent.{
  Task, get_asked, get_checked, get_permitted, get_located, get_done, start_asked, start_seeding,
  start_admitted, start_done, stop_asked, stop_done,
}

-- A task before and after: the predicate holds of it after if it was fresh before.
abbrev pub Since : (Task → Type 0) → Task → Task → Type 0
Since P (get_asked v) u = P u
Since P (start_asked flow) u = P u
Since P (stop_asked flow) u = P u
Since P (get_checked v) u = Unit
Since P (get_permitted v) u = Unit
Since P (get_located v path) u = Unit
Since P (get_done v r) u = Unit
Since P (start_seeding flow quads) u = Unit
Since P (start_admitted flow) u = Unit
Since P (start_done flow r) u = Unit
Since P (stop_done flow) u = Unit

abbrev pub AllSince : (Task → Type 0) → List Task → List Task → Type 0
AllSince P [] [] = Unit
AllSince P (t ∷ ts) (u ∷ us) = Since P t u × AllSince P ts us
AllSince P [] (u ∷ us) = ⊥
AllSince P (t ∷ ts) [] = ⊥

pub Since-map : (P Q : Task → Type 0) (t u u' : Task) → (P u → Q u') → Since P t u → Since Q t u'
Since-map P Q (get_asked v) u u' f e = f e
Since-map P Q (start_asked flow) u u' f e = f e
Since-map P Q (stop_asked flow) u u' f e = f e
Since-map P Q (get_checked v) u u' f e = tt
Since-map P Q (get_permitted v) u u' f e = tt
Since-map P Q (get_located v path) u u' f e = tt
Since-map P Q (get_done v r) u u' f e = tt
Since-map P Q (start_seeding flow quads) u u' f e = tt
Since-map P Q (start_admitted flow) u u' f e = tt
Since-map P Q (start_done flow r) u u' f e = tt
Since-map P Q (stop_done flow) u u' f e = tt

pub AllSince-map :
    (P Q : Task → Type 0) (ts us : List Task)
    → ((u : Task) → P u → Q u)
    → AllSince P ts us
    → AllSince Q ts us
AllSince-map P Q [] [] f e = tt
AllSince-map P Q (t ∷ ts) (u ∷ us) f (e, rest) =
    (Since-map P Q t u u (f u) e, AllSince-map P Q ts us f rest)
AllSince-map P Q [] (u ∷ us) f e = absurd e
AllSince-map P Q (t ∷ ts) [] f e = absurd e
