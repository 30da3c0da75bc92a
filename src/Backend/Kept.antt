-- ===== src/Backend/Kept.antt =====
-- backend/pkg/service/service.go: what the collection of the backends holds after a call.
use multi_cloud.Common.{
  ◌≡◌, ◌∙◌, refl, ap, sym, arith, Text, text_eq, text_eq_refl, Option, none, some, some_cancel,
  if◌then◌else◌,
}
use multi_cloud.Common.Actions.{Result, done, failed, panicked, return, continue, ◌>>=◌}
use multi_cloud.Common.Promises.{done-injective}
use multi_cloud.Backend.Types.{Backend, BackendDetail}
use multi_cloud.Backend.Driver.{Collection, or_panic, insert_with, repo_update_backend}
use multi_cloud.Backend.Service.{of_request, detail_of, create_backend, get_backend, update_backend}

-- The collection as a map from ids, with one backend changed.
abbrev pub with_backend : Text → Backend → (Text → Option Backend) → Text → Option Backend
with_backend id b view id' = if text_eq id id' then some b else view id'

-- What the collection promises: `view` is the backend with an id, which holds that id.
pub record BackendLaws {W : Type 0} (db : Collection W) : Type 0 where
  pub view : W → Text → Option Backend
  pub find_law :
      (id : Text) (b : Backend) (w w' : W)
      → db.find_id id w ≡ (w', done b)
      → (view w id ≡ some b) × (b.id ≡ id) × (view w' ≡ view w)
  pub insert_law :
      (b : Backend) (w w' : W)
      → db.insert b w ≡ (w', done tt)
      → view w' ≡ with_backend b.id b (view w)
  pub update_law :
      (id : Text) (b : Backend) (w w' : W)
      → db.update_id id b w ≡ (w', done tt)
      → view w' ≡ with_backend id b (view w)
  pub new_id_law :
      (w w' : W) (id : Text)
      → db.new_object_id w ≡ (w', id)
      → (db.object_id_hex id ≡ some id) × (view w' ≡ view w)

module _ {W : Type 0} (db : Collection W) (laws : BackendLaws db) where
  -- A write whose error is returned, followed by the backend that was written.
  written_backend :
      (b : Backend) (d : BackendDetail) (o : W × Result (Unit {0})) (w' : W)
      → continue (λ res. return (detail_of res)) (continue (λ u. return b) o) ≡ (w', done d)
      → (o ≡ (w', done tt)) × (detail_of b ≡ d)
  written_backend b d (w1, done u) w' h = (ap (λ p. (p.0, done tt)) h, done-injective h)
  written_backend b d (w1, failed e) w' h = ground (arith, h)
  written_backend b d (w1, panicked) w' h = ground (arith, h)

  named : BackendDetail → Text → Backend
  named d id = record (of_request d) { id = id }

  inserted :
      (d res : BackendDetail) (w : W) (id : Text) (w1 w' : W)
      → db.new_object_id w ≡ (w1, id)
      → continue (λ r. return (detail_of r)) (insert_with db (of_request d) (w1, id))
        ≡ (w', done res)
      → (res ≡ record d { id = id })
        × (db.object_id_hex id ≡ some id)
        × (laws.view w' ≡ with_backend id (record (of_request d) { id = id }) (laws.view w))
  unfolding insert_with ◌>>=◌
  inserted d res w id w1 w' fresh h =
      let (wrote, same) = written_backend (record (of_request d) { id = id }) res _ w' h in
      let (hex, view) = laws.new_id_law w w1 id fresh in
      (
        sym same,
        hex,
        laws.insert_law (record (of_request d) { id = id }) w1 w' wrote
            ∙ ap (with_backend id (record (of_request d) { id = id })) view,
      )

  read_back :
      (id : Text) (b : Backend) (d : BackendDetail) (w : W) (o : W × Result Backend) (w' : W)
      → db.find_id id w ≡ o
      → laws.view w id ≡ some b
      → continue (λ r. return (detail_of r)) o ≡ (w', done d)
      → d ≡ detail_of b
  read_back id b d w (w1, done c) w' e at h =
      sym (done-injective h) ∙ ap detail_of (some_cancel (sym (laws.find_law id c w w1 e).0 ∙ at))
  read_back id b d w (w1, failed m) w' e at h = ground (arith, h)
  read_back id b d w (w1, panicked) w' e at h = ground (arith, h)

  found_there :
      (id : Text) (b : Backend) (d : BackendDetail) (w w' : W)
      → db.object_id_hex id ≡ some id
      → laws.view w id ≡ some b
      → get_backend db id w ≡ (w', done d)
      → d ≡ detail_of b
  unfolding get_backend or_panic ◌>>=◌
  found_there id b d w w' hex at h = read_back id b d w (db.find_id id w) w' refl at (rw (hex) at h)

  at_id :
      (id : Text) (b : Backend) (view : Text → Option Backend) → with_backend id b view id ≡ some b
  at_id id b view = rw (text_eq_refl id) refl

  -- A backend that is created without an error is answered as it was asked for, with a new id; it is
  -- kept under that id, every other backend is as before, and a request for the id that is answered
  -- without an error is answered with the same.
  pub create_backend-get_backend :
      (d res : BackendDetail) (w w' : W)
      → create_backend db d w ≡ (w', done res)
      → (id : Text) × (res ≡ record d { id = id })
        × (laws.view w' ≡ with_backend id (record (of_request d) { id = id }) (laws.view w))
        × ((w2 : W) (r : BackendDetail) → get_backend db id w' ≡ (w2, done r) → r ≡ res)
  unfolding create_backend ◌>>=◌
  create_backend-get_backend d res w w' h =
      let id = (db.new_object_id w).1 in
      let (same, hex, view) = inserted d res w id (db.new_object_id w).0 w' refl h in
      let stored = record (of_request d) { id = id } in
      (
        id,
        same,
        view,
        λ w2 r got.
            found_there id stored r w' w2 hex (ap (λ v. v id) view ∙ at_id id stored (laws.view w))
              got
            ∙ sym same,
      )

  abbrev changed : Text → Text → Backend → Backend
  changed access security b = record b { access = access; security = security }

  updated_found :
      (id access security : Text) (res : BackendDetail) (w : W) (o : W × Result Backend) (w' : W)
      → db.find_id id w ≡ o
      → continue
          (λ b. repo_update_backend db (changed access security b) >>= λ r. return (detail_of r))
          o
        ≡ (w', done res)
      → (old : Backend) × (laws.view w id ≡ some old)
        × (laws.view w' ≡ with_backend id (changed access security old) (laws.view w))
        × (res ≡ detail_of (changed access security old))
  unfolding repo_update_backend ◌>>=◌
  updated_found id access security res w (w1, done b) w' e h =
      let (at, its_id, same) = laws.find_law id b w w1 e in
      let (wrote, answered) = written_backend (changed access security b) res _ w' h in
      (
        b,
        at,
        laws.update_law b.id (changed access security b) w1 w' wrote
            ∙ (λ i. with_backend (its_id i) (changed access security b) (same i)),
        sym answered,
      )
  updated_found id access security res w (w1, failed m) w' e h = ground (arith, h)
  updated_found id access security res w (w1, panicked) w' e h = ground (arith, h)

  updated_at :
      (o : Option Text) (access security : Text) (res : BackendDetail) (w w' : W)
      → continue
          (λ b. repo_update_backend db (changed access security b) >>= λ r. return (detail_of r))
          (or_panic db.find_id o w)
        ≡ (w', done res)
      → (id : Text) × (o ≡ some id)
        × (old : Backend) × (laws.view w id ≡ some old)
        × (laws.view w' ≡ with_backend id (changed access security old) (laws.view w))
        × (res ≡ detail_of (changed access security old))
  unfolding or_panic
  updated_at none access security res w w' h = ground (arith, h)
  updated_at (some id) access security res w w' h =
      let (old, at, view, same) = updated_found id access security res w _ w' refl h in
      (id, refl, old, at, view, same)

  -- An update without an error changes the access and the security of the backend with the id that the
  -- text stands for, and nothing else of it, every other backend is as before, and the answer is the
  -- backend as it is kept then.
  pub update_backend-changes :
      (text access security : Text) (res : BackendDetail) (w w' : W)
      → update_backend db text access security w ≡ (w', done res)
      → (id : Text) × (db.object_id_hex text ≡ some id)
        × (old : Backend) × (laws.view w id ≡ some old)
        × (laws.view w'
            ≡ with_backend id (record old { access = access; security = security }) (laws.view w))
        × (res ≡ detail_of (record old { access = access; security = security }))
  unfolding update_backend ◌>>=◌
  update_backend-changes text access security res w w' h =
      updated_at (db.object_id_hex text) access security res w w' h
