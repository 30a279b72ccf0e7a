-- ===== src/Store/QueryHandler/Transformed.antt =====
-- The events of a list of identifiers behind an `IDToRIDCollectionTransformer`.
use go_res.Base.{Bytes, none, some, List, inr, ◌≡◌, ap}
use go_res.Store.Transform.{ResultEvent, TransformError, collection_events}
use go_res.Store.QueryHandler.{QueryHandler, transformed_events, collection_transformer}

pub transformed_events-eq :
    {Q U : Type 0} (o : QueryHandler Q U) (t : Bytes → Bytes) (describe : TransformError → Bytes)
    → o.trans ≡ some (collection_transformer describe t)
    → (evs evs' : List (ResultEvent U)) → collection_events t evs ≡ (none, evs')
    → transformed_events o evs ≡ inr evs'
unfolding transformed_events collection_transformer
transformed_events-eq o t describe has_trans evs evs' h =
    rw (transformed_events, has_trans, collection_transformer, h) (ap (λ p. inr p.1) h)
