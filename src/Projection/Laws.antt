-- ===== src/Projection/Laws.antt =====
-- What the read view of a record shows, and when.
use db_connections.Domain.{ConnectionRecord, StoredConnectionIssue, TypeSpec}
use db_connections.Prelude.{List, [], is_nonempty, true, ◌++◌, ◌==◌, ◌≡◌}
use db_connections.Projection.{View, broken, build, public}
use db_connections.Registry.{ConnectionRegistry, get_type}
use db_connections.Result.{ok}

-- What a view promises. A public one: the record was read without an issue, its kind is the
-- registered one, and the view is the one that `build` gives. A broken one: there are issues, those
-- of the reading first and unchanged.
abbrev pub Shows : ConnectionRegistry → ConnectionRecord → View → Type 0
Shows registry r (public v) =
    (spec : TypeSpec) × (get_type r.type registry ≡ ok spec)
    × (r.read_issues ≡ [])
    × ((r.kind == spec.kind) ≡ true)
    × (build registry r ≡ ok v)
Shows registry r (broken v) =
    (is_nonempty v.issues ≡ true)
    × ((found : List StoredConnectionIssue) × (v.issues ≡ r.read_issues ++ found))
