-- ===== src/Backend/Driver.antt =====
-- backend/pkg/db/drivers/mongo/mongo.go: the repository of the backends. An id is the text of its
-- hexadecimal digits.
use multi_cloud.Common.{
  ℕ, zero, suc, ◌-◌, ◌^◌, Text, is_empty, List, Option, none, some, if◌then◌else◌,
}
use multi_cloud.Common.Actions.{Act, Result, return, panic, ◌>>=◌}
use multi_cloud.Common.Int.{ℤ, pos, negsuc}
use multi_cloud.Policy.Check.{TextMap}
use multi_cloud.Backend.Types.{Backend}

-- mgo and bson: the collection, and the ids. `find` takes the filter, what is skipped, and the limit.
pub record Collection (W : Type 0) : Type 0 where
  pub insert : Backend → Act W (Unit {0})
  pub find_id : Text → Act W Backend
  pub find : TextMap Text → ℕ → ℤ → Act W (List Backend)
  pub update_id : Text → Backend → Act W (Unit {0})
  pub remove_id : Text → Act W (Unit {0})
  -- `bson.ObjectIdHex`, which panics on other text than 24 hexadecimal digits.
  pub object_id_hex : Text → Option Text
  pub new_object_id : W → W × Text

unfoldable pub or_panic : {W A : Type 0} → (Text → Act W A) → Option Text → Act W A
or_panic call none = panic
or_panic call (some id) = call id

-- `math.MinInt32` for a limit of 0.
unfoldable pub query_limit : ℕ → ℤ
query_limit zero = negsuc (2 ^ 31 - 1)
query_limit (suc n) = pos (suc n)

module _ {W : Type 0} (db : Collection W) where
  unfoldable pub insert_with : Backend → W × Text → W × Result Backend
  unfolding ◌>>=◌
  insert_with b (w, id) =
      let named = record b { id = id } in (db.insert named >>= λ u. return named) w

  unfoldable pub repo_create_backend : Backend → Act W Backend
  unfolding insert_with ◌>>=◌
  repo_create_backend b w =
      if is_empty b.id
      then insert_with b (db.new_object_id w)
      else (db.insert b >>= λ u. return b) w

  unfoldable pub repo_delete_backend : Text → Act W (Unit {0})
  unfolding or_panic
  repo_delete_backend id = or_panic db.remove_id (db.object_id_hex id)

  unfoldable pub repo_update_backend : Backend → Act W Backend
  unfolding ◌>>=◌
  repo_update_backend b = db.update_id b.id b >>= λ u. return b

  unfoldable pub repo_get_backend : Text → Act W Backend
  unfolding or_panic
  repo_get_backend id = or_panic db.find_id (db.object_id_hex id)

  unfoldable pub repo_list_backend : ℕ → ℕ → TextMap Text → Act W (List Backend)
  unfolding query_limit
  repo_list_backend limit offset query = db.find query offset (query_limit limit)
