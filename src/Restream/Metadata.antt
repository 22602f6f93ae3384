-- ===== src/Restream/Metadata.antt =====
-- Metadata of a process that are set and read in restream/restream.go.
use datarhei_core.Prelude.{◌≡◌, ap, ◌∙◌, false, some, inr, if_false, elim_some}
use datarhei_core.Prelude.Map.{lookup, insert, lookup-insert_self}
use datarhei_core.Io.Path.{Bytes, Bytes-discrete}
use datarhei_core.Restream.Validate.{is_nil}
use datarhei_core.Restream.Tasks.{Task}
use datarhei_core.Restream.Manager.{Restream, Outcome, Metadata, save}
use datarhei_core.Restream.Queries.{
  one, entries, set_key, get_key, set_process_metadata, get_process_metadata,
}

get_key-set_key :
    (key value : Bytes) (m : Metadata)
    → is_nil key ≡ false
    → get_key key (set_key key (some value) m) ≡ inr (one value)
unfolding get_key set_key insert
get_key-set_key key value m named =
    if_false named _ _ ∙ elim_some (lookup-insert_self Bytes-discrete key value (entries m)) _ _

pub get_process_metadata-set_process_metadata :
    (id key value : Bytes) (t : Task) (r : Restream)
    → is_nil key ≡ false
    → lookup Bytes-discrete id r.tasks ≡ some t
    → get_process_metadata id key (set_process_metadata id key (some value) r).0 ≡ inr (one value)
unfolding get_process_metadata set_process_metadata save
get_process_metadata-set_process_metadata id key value t r named known =
    let t' = record t { metadata = set_key key (some value) t.metadata } in
    let sets = if_false named _ _ ∙ elim_some known _ _ in
    ap (λ (o : Outcome). get_process_metadata id key o.0) sets
    ∙ elim_some (lookup-insert_self Bytes-discrete id t' r.tasks) _ _
    ∙ get_key-set_key key value t.metadata named
