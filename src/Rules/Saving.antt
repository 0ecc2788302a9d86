-- ===== src/Rules/Saving.antt =====
-- rules.json: what the mutators leave in it, and what a restart makes of it.
use reqable_mcp.Prelude.{
  ℕ, String, ◌≡◌, refl, sym, ap, ◌∙◌, Bool, true, false, not, ◌||◌, ◌&&◌, ◌==◌, length, Option,
  none, some, List, [], ◌∷◌, ◌++◌, map, eq_iff, arith, if◌then◌else◌, inl, inr, Bool-cases,
  append_assoc, append-nil,
}
use reqable_mcp.Prelude.Int.{ℤ}
use reqable_mcp.Prelude.Result.{Result, ok, err, is_ok}
use reqable_mcp.Prelude.Dict
use reqable_mcp.Prelude.Dict.{Dict, IsUnique}
use reqable_mcp.Prelude.Dict.Laws.{put_fresh, get-put, length-keys}
use reqable_mcp.Json.{to_list-of_list, Json, obj, of_dict}
use reqable_mcp.Python.{Python}
use reqable_mcp.Rules.{Rule, post_init, is_expired}
use reqable_mcp.Rules.Record.{
  fields_of, from_dict, of_text, of_time, of_int, opt_text_of, time_of, int_of, is_str, is_none,
  is_int, is_float,
}
use reqable_mcp.Rules.Engine.{
  Engine, Spec, document, save, add, remove, clear, reap_expired, load, load_entry, load_entries,
  load_json, load_file, entries_of, install, checked_rule,
}
use reqable_mcp.Rules.Index.{HasIds, IsIndexed, ids-keep}

text_typed : (o : Option String) → is_str (of_text o) || is_none (of_text o) ≡ true
unfolding is_str is_none
text_typed none = refl
text_typed (some s) = refl

text_back : (o : Option String) → opt_text_of (of_text o) ≡ o
text_back none = refl
text_back (some s) = refl

time_typed :
    (o : Option ℤ) → is_int (of_time o) || is_float (of_time o) || is_none (of_time o) ≡ true
unfolding is_int is_float is_none
time_typed none = refl
time_typed (some s) = refl

time_back : (o : Option ℤ) → time_of (of_time o) ≡ o
time_back none = refl
time_back (some s) = refl

int_typed : (o : Option ℤ) → is_int (of_int o) || is_none (of_int o) ≡ true
unfolding is_int is_none
int_typed none = refl
int_typed (some s) = refl

int_back : (o : Option ℤ) → int_of (of_int o) ≡ o
int_back none = refl
int_back (some s) = refl

-- A rule that passes its own check is read back from what is written of it.
from_dict-fields_of :
    (py : Python) (r : Rule)
    → post_init py r ≡ ok r
    → from_dict py (obj (of_dict (fields_of r))) ≡ ok r
unfolding from_dict fields_of Dict.get
from_dict-fields_of py r h =
    simp (text_typed, time_typed, int_typed, text_back, time_back, int_back) h

-- no key of the second stands in the first
Apart : Dict Rule → Dict Rule → Type 0
Apart acc [] = Unit
Apart acc ((k, r) ∷ d) = (Dict.contains acc k ≡ false) × Apart acc d

Apart-nil : (d : Dict Rule) → Apart [] d
unfolding Apart Dict.get
Apart-nil [] = tt
Apart-nil ((k, r) ∷ d) = (refl, Apart-nil d)

Apart-put :
    (acc d : Dict Rule) (k : String) (r : Rule)
    → Apart acc d
    → Dict.contains d k ≡ false
    → Apart (Dict.put acc k r) d
unfolding Apart Dict.get
Apart-put acc [] k r a absent = tt
Apart-put acc ((j, s) ∷ d) k r (fresh, a) absent =
    ground (arith, Apart-put acc d k r a, get-put acc k r j, eq_iff k j, eq_iff j k)

-- The rules of a dictionary that `from_dict` takes back.
abbrev pub Loadable : Python → Dict Rule → Type 0
Loadable py [] = Unit
Loadable py ((k, r) ∷ d) = (post_init py r ≡ ok r) × Loadable py d

abbrev written : Dict Rule → List Json
written d = map (λ r. obj (of_dict (fields_of r))) (Dict.values d)

module _ (py : Python) (now : ℕ) where
  load_entry-written :
      (k : String) (r : Rule) (d : Dict Rule)
      → k ≡ r.id
      → post_init py r ≡ ok r
      → load_entry py now (obj (of_dict (fields_of r))) d
        ≡ (if is_expired now r then d else Dict.put d k r)
  unfolding load_entry
  load_entry-written k r d same h =
      rw (from_dict-fields_of py r h)
        (ap (λ j. if is_expired now r then d else Dict.put d j r) (sym same))

  load_written :
      (d acc : Dict Rule)
      → Loadable py d
      → IsUnique d
      → HasIds d
      → Apart acc d
      → load_entries py now (written d) acc ≡ acc ++ Dict.keep (λ r. not (is_expired now r)) d
  unfolding load_entries Dict.keep Apart
  load_written [] acc l u h a = sym (append-nil acc)
  load_written ((k, r) ∷ d) acc (l, ls) (absent, u) (h, hs) (fresh, a) =
      ap (load_entries py now (written d)) (load_entry-written k r acc h l)
      ∙ elim (Bool-cases (is_expired now r)) [
        | inl dead ↦ rw dead (load_written d acc ls u hs a)
        | inr alive ↦ rw alive (
            load_written d (Dict.put acc k r) ls u hs (Apart-put acc d k r a absent)
            ∙ rw (put_fresh acc k r fresh) (append_assoc acc ((k, r) ∷ []) _))
      ]

-- A restarted daemon, whose file holds what was saved and whose `json.load` reads that back, has the
-- saved rules less those that have expired, in the order in which they stood.
pub restart :
    (py : Python) (now : ℕ) (e : Engine)
    → IsIndexed e
    → Loadable py e.rules
    → py.loads (py.dumps (document e.rules)) ≡ some (document e.rules)
    → (load py true now (record { rules = []; file = (save py true e).1.file })).rules
      ≡ Dict.keep (λ r. not (is_expired now r)) e.rules
unfolding load load_file load_json save entries_of document Dict.get
restart py now e v l read_back = rw read_back (
    rw (to_list-of_list (written e.rules))
      (load_written py now e.rules [] l v.unique v.ids (Apart-nil e.rules)))

-- The file after a call, if it holds the rules in memory exactly when the test passes and is
-- untouched otherwise.
abbrev pub written_if : Python → Bool → Engine → Engine → Option String
written_if py test before after =
    if test then some (py.dumps (document after.rules)) else before.file

module _ (py : Python) (e : Engine) where
  install_file :
      (o : Result Rule) (writes : Bool)
      → (install py o writes e).1.file
        ≡ written_if py (is_ok o && writes) e (install py o writes e).1
  unfolding install
  install_file (err x) writes = refl
  install_file (ok s) true = refl
  install_file (ok s) false = refl

  remove_file :
      (id : String) (writes : Bool)
      → (remove py id writes e).1.file
        ≡ written_if py (Dict.contains e.rules id && writes) e (remove py id writes e).1
  unfolding remove
  remove_file id true = ground arith
  remove_file id false = ground arith

  clear_file :
      (writes : Bool) → (clear py writes e).1.file ≡ written_if py writes e (clear py writes e).1
  unfolding clear
  clear_file true = refl
  clear_file false = refl

  reap_file :
      (now : ℕ) (writes : Bool)
      → IsIndexed e
      → (reap_expired py now writes e).1.file
        ≡ written_if py
            (not (length (Dict.keep (is_expired now) e.rules) == 0) && writes)
            e
            (reap_expired py now writes e).1
  unfolding reap_expired
  reap_file now true v = ground (
    arith,
    ids-keep (is_expired now) e.rules v.ids,
    length-keys (Dict.keep (is_expired now) e.rules),
  )
  reap_file now false v = ground arith

  -- An `add` of valid arguments, a `remove` of a rule that is there, a `clear`, and a deletion of
  -- expired rules that finds one leave in rules.json exactly the rules that they leave in memory, if
  -- the file can be written. Otherwise the file stays as it was.
  pub mutators_save :
      IsIndexed e
      → (a : Spec) (uuid : String) (now later : ℕ) (id : String) (writes : Bool)
      → ((add py a uuid now later writes e).1.file
          ≡ written_if py
              (is_ok (checked_rule py a uuid now later) && writes)
              e
              (add py a uuid now later writes e).1)
        × ((remove py id writes e).1.file
            ≡ written_if py (Dict.contains e.rules id && writes) e (remove py id writes e).1)
        × ((clear py writes e).1.file ≡ written_if py writes e (clear py writes e).1)
        × ((reap_expired py now writes e).1.file
            ≡ written_if py
                (not (length (Dict.keep (is_expired now) e.rules) == 0) && writes)
                e
                (reap_expired py now writes e).1)
  unfolding add
  mutators_save v a uuid now later id writes = (
    install_file (checked_rule py a uuid now later) writes,
    remove_file id writes,
    clear_file writes,
    reap_file now writes v,
  )
