-- ===== src/Backend/Tests.antt =====
-- backend: the theorems at a collection that is a map from ids.
use multi_cloud.Common.{
  ℕ, ◌≡◌, ◌↔◌, ◌⊎◌, inl, inr, ◌∙◌, refl, ap, sym, arith, Bool-cases, Text, codes, text_eq,
  text_eq_sound, List, [], ◌∷◌, length, Option, none, some, if◌then◌else◌, ◌≤◌,
}
use multi_cloud.Common.Int.{pos, negsuc}
use multi_cloud.Common.Actions.{Result, done, failed, panicked}
use multi_cloud.Policy.Check.{lookup}
use multi_cloud.Backend.Types.{Backend, BackendDetail, TypeDetail}
use multi_cloud.Backend.Driver.{Collection, repo_create_backend}
use multi_cloud.Backend.Service.{
  filtered_types, list_type, create_backend, get_backend, update_backend, of_request, detail_of,
}
use multi_cloud.Backend.Pages.{IsPage, list_type-IsPage, list_type-panicked}
use multi_cloud.Backend.Kept.{
  with_backend, BackendLaws, create_backend-get_backend, update_backend-changes,
}

abbrev middle : List TypeDetail
middle =
    (record { name = codes "hw-obs"; description = codes "Huawei Object Storage Service(OBS)" })
    ∷ (record { name = codes "azure-blob"; description = codes "Azure Blob Storage" })
    ∷ []

middle_listed : list_type [] (pos 2) (pos 1) ≡ done (middle, pos 3)
unfolding list_type lookup
middle_listed = refl

two_of_five : IsPage (filtered_types (lookup (codes "name") [])) 1 2 middle (pos 3)
two_of_five = list_type-IsPage [] 2 1 middle (pos 3) middle_listed

minus_one_panics : (list_type [] (negsuc 0) (pos 0) ≡ panicked) ↔ (
    ((o : ℕ) × (pos 0 ≡ negsuc o))
    ⊎ ((l : ℕ) × (o : ℕ) × (negsuc 0 ≡ negsuc l)
        × (pos 0 ≡ pos o)
        × (o ≤ length (filtered_types (lookup (codes "name") [])))))
minus_one_panics = list_type-panicked [] (negsuc 0) (pos 0)

abbrev Backends : Type 0
Backends = Text → Option Backend

-- A backend that is kept under another id than its own is not answered.
abbrev answer_of : Text → Option Backend → Result Backend
answer_of id none = failed (codes "not found")
answer_of id (some b) = if text_eq b.id id then done b else failed (codes "broken")

abbrev map_db : Collection Backends
map_db = record {
  insert = λ b w. (with_backend b.id b w, done tt);
  find_id = λ id w. (w, answer_of id (w id));
  find = λ query skip limit w. (w, done []);
  update_id = λ id b w. (with_backend id b w, done tt);
  remove_id = λ id w. (w, done tt);
  object_id_hex = λ t. some t;
  new_object_id = λ w. (w, codes "id1");
}

answered_kept :
    (id : Text) (o : Option Backend) (b : Backend)
    → answer_of id o ≡ done b
    → (o ≡ some b) × (b.id ≡ id)
answered_kept id none b h = ground (arith, h)
answered_kept id (some c) b h = elim (Bool-cases (text_eq c.id id)) [
  | inl same ↦
      let is_b : c ≡ b = ap (backend_in c) (rw (same) at h) in
      (ap some is_b, sym (ap (λ x. x.id) is_b) ∙ text_eq_sound c.id id same)
  | inr other ↦ absurd (ground (arith, other, h))
]
  where
    backend_in : Backend → Result Backend → Backend
    backend_in c (done b) = b
    backend_in c (failed e) = c
    backend_in c panicked = c

module _ {A B : Type 0} {a a' : A} {b b' : B} where
  first_part : ◌≡◌ {A = A × B} (a, b) (a', b') → a ≡ a'
  first_part h = ap (λ p. p.0) h

  second_part : ◌≡◌ {A = A × B} (a, b) (a', b') → b ≡ b'
  second_part h = ap (λ p. p.1) h

abbrev map_laws : BackendLaws map_db
map_laws = record {
  view = λ w. w;
  find_law = λ id b w w' e.
      let (at, its_id) = answered_kept id (w id) b (second_part e) in
      (at, its_id, sym (first_part e));
  insert_law = λ b w w' e. sym (first_part e);
  update_law = λ id b w w' e. sym (first_part e);
  new_id_law = λ w w' id e. (refl, sym (first_part e));
}

abbrev request : BackendDetail
request = record {
  id = [];
  tenant_id = codes "t";
  user_id = codes "u";
  name = codes "b";
  type = codes "aws-s3";
  region = codes "r";
  endpoint = codes "e";
  bucket_name = codes "n";
  access = codes "a";
  security = codes "s";
}

abbrev nothing_kept : Backends
nothing_kept id = none

abbrev created : BackendDetail
created = record request { id = codes "id1" }

abbrev kept_one : Backends
kept_one =
    with_backend (codes "id1") (record (of_request request) { id = codes "id1" }) nothing_kept

creating : create_backend map_db request nothing_kept ≡ (kept_one, done created)
unfolding create_backend repo_create_backend
creating = refl

created_answered :
    (id : Text) × (created ≡ record request { id = id })
    × (kept_one ≡ with_backend id (record (of_request request) { id = id }) nothing_kept)
    × ((w2 : Backends) (r : BackendDetail)
        → get_backend map_db id kept_one ≡ (w2, done r)
        → r ≡ created)
created_answered =
    create_backend-get_backend map_db map_laws request created nothing_kept kept_one creating

abbrev renewed : BackendDetail
renewed = record created { access = codes "a2"; security = codes "s2" }

abbrev kept_new : Backends
kept_new = (update_backend map_db (codes "id1") (codes "a2") (codes "s2") kept_one).0

updating :
    update_backend map_db (codes "id1") (codes "a2") (codes "s2") kept_one
    ≡ (kept_new, done renewed)
unfolding update_backend
updating = refl

renewed_alone :
    (id : Text) × (some (codes "id1") ≡ some id)
    × (old : Backend) × (kept_one id ≡ some old)
    × (kept_new
        ≡ with_backend id (record old { access = codes "a2"; security = codes "s2" }) kept_one)
    × (renewed ≡ detail_of (record old { access = codes "a2"; security = codes "s2" }))
renewed_alone =
    update_backend-changes map_db map_laws (codes "id1") (codes "a2") (codes "s2") renewed kept_one
      kept_new updating
