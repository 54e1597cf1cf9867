-- ===== src/Auth/Tests.antt =====
-- A list of API keys, an ability by its rules, and instances of the theorems.
use aira_relay.Base.{
  ℕ, zero, suc, Bool, true, false, not, ◌&&◌, ◌||◌, if◌then◌else◌, Option, none, some, List, [],
  ◌∷◌, Text, codes, text_eq, text_eq_iff, any, ◌≡◌, refl, arith,
}
use aira_relay.Base.Results.{forbidden, ok, err, M}
use aira_relay.Auth.{ApiKey, User}
use aira_relay.Auth.Abilities.{
  manage, list, create, use_session, matches, Casl, can_session_kind, can_session, can_server,
  can_activate,
}
use aira_relay.Auth.Access.{session_user_access}
use aira_relay.Auth.Keys.{
  KeyCollection, check_invariant, ApiKeyRequest, candidate, is_taken, check_session,
}

abbrev casl : Casl
casl = record { can = λ rs a s. any (matches a s) rs; can_rules = λ rs a s. refl }

abbrev by_id : List ApiKey → Text → Option ApiKey
by_id [] i = none
by_id (k ∷ ks) i = if text_eq k.id i then some k else by_id ks i

abbrev by_key : List ApiKey → Text → Option ApiKey
by_key [] i = none
by_key (k ∷ ks) i = if text_eq k.key i then some k else by_key ks i

abbrev put : List ApiKey → ApiKey → List ApiKey
put [] k = k ∷ []
put (j ∷ ks) k = if text_eq j.id k.id then k ∷ ks else j ∷ put ks k

abbrev clashes : List ApiKey → ApiKey → Bool
clashes [] k = false
clashes (j ∷ ks) k = (text_eq j.key k.key && not (text_eq j.id k.id)) || clashes ks k

abbrev drop_id : List ApiKey → Text → List ApiKey
drop_id [] i = []
drop_id (k ∷ ks) i = if text_eq k.id i then drop_id ks i else k ∷ drop_id ks i

by_id-put :
    (d : List ApiKey) (k : ApiKey) (j : Text)
    → by_id (put d k) j ≡ (if text_eq k.id j then some k else by_id d j)
by_id-put [] k j = refl
by_id-put (i ∷ d) k j =
    ground (arith, by_id-put d k j, text_eq_iff i.id k.id, text_eq_iff k.id j, text_eq_iff i.id j)

by_id-drop_id :
    (d : List ApiKey) (i j : Text)
    → by_id (drop_id d i) j ≡ (if text_eq i j then none else by_id d j)
by_id-drop_id [] i j = ground arith
by_id-drop_id (k ∷ d) i j =
    ground (arith, by_id-drop_id d i j, text_eq_iff k.id i, text_eq_iff i j, text_eq_iff k.id j)

free-clashes : (d : List ApiKey) (k : ApiKey) → by_key d k.key ≡ none → clashes d k ≡ false
free-clashes [] k h = refl
free-clashes (j ∷ d) k h = ground (arith, free-clashes d k)

abbrev keys : KeyCollection
keys = record {
  Docs = List ApiKey;
  find_by_id = λ d i. by_id d i;
  find_by_key = λ d i. by_key d i;
  replace_one = λ d k. if clashes d k then none else some (put d k);
  delete_by_id = λ d i. drop_id d i;
  find_by_id-replace_one = λ d k e j h. ground (arith, by_id-put d k j);
  find_by_id-delete = λ d i j. by_id-drop_id d i j;
  replace_one-free = λ d k h. ground (arith, free-clashes d k h);
}

computing : Unit {0}
unfolding text_eq is_taken check_session check_invariant candidate
computing = tt

abbrev old_key : ApiKey
old_key = record {
  id = codes "key_id_0";
  key = codes "key_0";
  is_active = true;
  is_admin = false;
  session = some (codes "a");
}

-- Ids are never new, keys are.
abbrev repeating : ℕ → Text × Text
repeating n = (codes "key_id_0", codes "key_1")

-- The second id is new.
abbrev second_new : ℕ → Text × Text
second_new zero = (codes "key_id_0", codes "key_1")
second_new (suc n) = (codes "key_id_1", codes "key_1")

abbrev for_session : ApiKeyRequest
for_session = record { is_active = true; is_admin = false; session = some (codes "b") }

abbrev exists : Text → M (Unit {0}) Bool
exists name s = (s, ok true)

session_user_access_example :
    let u : Option User = some (record { is_admin = false; session = some (codes "a") }) in
    (can_activate (can_session casl use_session (some (codes "b")) ∷ []) u ≡ err forbidden)
    × (can_activate (can_server casl manage ∷ []) u ≡ err forbidden)
    × (can_activate (can_session_kind casl create ∷ []) u ≡ err forbidden)
    × (can_activate (can_session_kind casl list ∷ []) u ≡ ok true)
unfolding computing
session_user_access_example = session_user_access casl b'a' [] (codes "b") use_session refl
