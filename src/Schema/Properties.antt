-- ===== src/Schema/Properties.antt =====
-- What `_parse_property` and the search for an entity's properties give.
use reqable_mcp.Prelude.{
  ℕ, zero, suc, ◌+◌, ◌≤◌, ◌<◌, ◌%◌, String, ◌≡◌, ◌≢◌, refl, ap, ◌∙◌, Bool, true, false, not, ◌||◌,
  Option, none, some, List, [], ◌∷◌, length, All, ltb, ◌==◌, str_eq, eq_iff, arith, if◌then◌else◌,
  Bool-cases, inl, inr,
}
use reqable_mcp.Prelude.Result.{Result, ok, err, Error, value_error, index_error, >>=-eq-ok}
use reqable_mcp.FlatBuffers.{
  Bytes, Table, field_at, u32, deref_uoffset, parse_table, read_string_field, looks_like_table,
}
use reqable_mcp.Schema.{
  Property, except, or_none, printable, or_zero, index_or_none, property_of, named_property,
  property_at, parse_property, sub_offsets, cons_some, parse_each, parse_some, candidate, better,
  best_props,
}

-- A property has a name of printable characters and a type code of 16 bits.
pub record IsProperty (p : Property) : Type 0 where
  pub named : p.name ≢ ""
  pub readable : printable p.name ≡ true
  pub short : p.type_code < 65536

abbrev pub IsList : List Property → Type 0
IsList ps = (length ps ≤ 200) × All IsProperty ps

pub or_none-some :
    {A B : Type 0} (x : Error) (r : Result A) (rest : A → Result (Option B)) (b : B)
    → or_none x r rest ≡ ok (some b)
    → (a : A) × (r ≡ ok a) × (rest a ≡ ok (some b))
unfolding or_none
or_none-some x (ok a) rest b h = (a, refl, h)
or_none-some x (err y) rest b h = ground arith

-- a result that is not the early `none`
pub past_test :
    {A : Type 0} (test : Bool) (rest : Result (Option A)) (a : A)
    → (if test then ok none else rest) ≡ ok (some a)
    → (test ≡ false) × (rest ≡ ok (some a))
past_test true rest a h = absurd (cc)
past_test false rest a h = (refl, h)

at_most : (n : ℕ) → n == 0 || ltb 200 n ≡ false → n ≤ 200
at_most n h = ground arith

except-some :
    {A : Type 0} (x : Error) (r : Result (Option A)) (a : A)
    → except x none r ≡ ok (some a)
    → r ≡ ok (some a)
except-some x (ok o) a h = h
except-some x (err y) a h = ground arith

module _ (decode : Bytes → String) (buf : Bytes) where
  property_of-IsProperty :
      (t : Table) (name : String) (p : Property)
      → str_eq name "" ≡ false
      → printable name ≡ true
      → property_of decode buf t name ≡ ok (some p)
      → IsProperty p
  unfolding property_of
  property_of-IsProperty t name p ne readable h =
      let (pid, _, h₁) = >>=-eq-ok (or_zero (u32 buf) (field_at 1 t.fields)) _ h in
      let (packed, _, h₂) = >>=-eq-ok (or_zero (u32 buf) (field_at 7 t.fields)) _ h₁ in
      let (index, _, h₃) = >>=-eq-ok (index_or_none buf (field_at 8 t.fields)) _ h₂ in
      let made : p
          ≡ record { pid = pid; vt_index = index; name = name; type_code = packed % 65536 } =
        cc in
      rw made (record {
        named = ground (arith, eq_iff name "");
        readable = readable;
        short = omega arith;
      })

  named-IsProperty :
      (t : Table) (name : String) (p : Property)
      → named_property decode buf t name ≡ ok (some p)
      → IsProperty p
  unfolding named_property
  named-IsProperty t name p h = elim (Bool-cases (str_eq name "")) [
    | inl e ↦ ground arith
    | inr ne ↦ elim (Bool-cases (printable name)) [
      | inl readable ↦ property_of-IsProperty t name p ne readable (ground arith)
      | inr e ↦ ground arith
    ]
  ]

  property_at-IsProperty :
      (t : Table) (o : Option ℕ) (p : Property)
      → property_at decode buf t o ≡ ok (some p)
      → IsProperty p
  unfolding property_at
  property_at-IsProperty t none p h = absurd (cc)
  property_at-IsProperty t (some off) p h =
      let (name, _, made) =
        or_none-some index_error (read_string_field decode buf off) (named_property decode buf t) p
          h in
      named-IsProperty t name p made

  parse_property-IsProperty :
      (off : ℕ) (p : Property) → parse_property decode buf off ≡ ok (some p) → IsProperty p
  unfolding parse_property
  parse_property-IsProperty off p h =
      let (t, _, made) =
        or_none-some value_error (parse_table buf off)
          (λ t. property_at decode buf t (field_at 6 t.fields)) p h in
      property_at-IsProperty t (field_at 6 t.fields) p made

  cons_some-All :
      (o : Option Property) (qs : List Property)
      → ((p : Property) → o ≡ some p → IsProperty p)
      → All IsProperty qs
      → (length (cons_some decode buf o qs) ≤ suc (length qs))
        × All IsProperty (cons_some decode buf o qs)
  cons_some-All none qs f all = (omega arith, all)
  cons_some-All (some p) qs f all = (omega arith, (f p refl, all))

  parse_each-All :
      (offs : List ℕ) (ps : List Property)
      → parse_each decode buf offs ≡ ok ps
      → (length ps ≤ length offs) × All IsProperty ps
  unfolding parse_each
  parse_each-All [] ps h = let e : ps ≡ [] = cc in rw e (omega arith, tt)
  parse_each-All (off ∷ offs) ps h =
      let (o, found, h₁) = >>=-eq-ok (parse_property decode buf off) _ h in
      let (qs, parsed, h₂) = >>=-eq-ok (parse_each decode buf offs) _ h₁ in
      let (few, all) = parse_each-All offs qs parsed in
      let e : ps ≡ cons_some decode buf o qs = cc in
      let (more, all') =
        cons_some-All o qs (λ p q. parse_property-IsProperty off p (found ∙ ap ok q)) all in
      rw e (omega arith, all')

  prepended :
      (x : ℕ) (o : Option (List ℕ)) (left : ℕ) (offs : List ℕ)
      → ((qs : List ℕ) → o ≡ some qs → length qs ≡ left)
      → ok (elim o [ none ↦ none | some qs ↦ some (x ∷ qs) ]) ≡ ok (some offs)
      → length offs ≡ suc left
  prepended x none left offs f h = absurd (cc)
  prepended x (some qs) left offs f h = let e : offs ≡ x ∷ qs = cc in rw e (ap suc (f qs refl))

  sub_offsets-length :
      (item n : ℕ) (offs : List ℕ)
      → sub_offsets decode buf item n ≡ ok (some offs)
      → length offs ≡ n
  unfolding sub_offsets
  sub_offsets-length item zero offs h = let e : offs ≡ [] = cc in rw e refl
  sub_offsets-length item (suc left) offs h =
      let (_, h₁) = past_test (ltb (length buf) (item + 4)) _ offs h in
      let (rel, _, h₂) = >>=-eq-ok (u32 buf item) _ h₁ in
      let (_, h₃) = past_test (not (looks_like_table buf (item + rel))) _ offs h₂ in
      let (o, found, h₄) = >>=-eq-ok (sub_offsets decode buf (item + 4) left) _ h₃ in
      prepended (item + rel) o left offs
        (λ qs q. sub_offsets-length (item + 4) left qs (found ∙ ap ok q)) h₄

  parsed-IsList :
      (o : Option (List ℕ)) (ps : List Property) (n : ℕ)
      → n ≤ 200
      → ((offs : List ℕ) → o ≡ some offs → length offs ≡ n)
      → parse_some decode buf o ≡ ok (some ps)
      → IsList ps
  parsed-IsList none ps n le f h = absurd (cc)
  parsed-IsList (some offs) ps n le f h =
      let (qs, parsed, h₁) = >>=-eq-ok (parse_each decode buf offs) _ h in
      let (few, all) = parse_each-All offs qs parsed in
      let e : ps ≡ qs = cc in rw e (omega (arith, f offs refl), all)

  candidate-IsList :
      (off : ℕ) (ps : List Property) → candidate decode buf off ≡ ok (some ps) → IsList ps
  unfolding candidate
  candidate-IsList off ps h =
      let (target, _, h₁) = >>=-eq-ok (deref_uoffset buf off) _ h in
      let (_, h₂) = past_test (ltb (length buf) (target + 4)) _ ps h₁ in
      let (n, _, h₃) = >>=-eq-ok (u32 buf target) _ h₂ in
      let (few, h₄) = past_test (n == 0 || ltb 200 n) _ ps h₃ in
      let (o, found, h₅) = >>=-eq-ok (sub_offsets decode buf (target + 4) n) _ h₄ in
      parsed-IsList o ps n (at_most n few)
        (λ offs q. sub_offsets-length (target + 4) n offs (found ∙ ap ok q)) h₅

  better-IsList :
      (best : List Property) (o : Option (List Property))
      → IsList best
      → ((qs : List Property) → o ≡ some qs → IsList qs)
      → IsList (better decode buf best o)
  better-IsList best none b f = b
  better-IsList best (some qs) b f = elim (Bool-cases (ltb (length best) (length qs))) [
    | inl e ↦ rw e (f qs refl)
    | inr e ↦ rw e b
  ]

  pub best_props-IsList :
      (fields : List (ℕ × ℕ)) (best ps : List Property)
      → IsList best
      → best_props decode buf fields best ≡ ok ps
      → IsList ps
  unfolding best_props
  best_props-IsList [] best ps b h = let e : ps ≡ best = cc in rw e b
  best_props-IsList ((slot, off) ∷ fields) best ps b h =
      let (found, e, h₁) =
        >>=-eq-ok (except value_error none (except index_error none (candidate decode buf off))) _
          h in
      best_props-IsList fields (better decode buf best found) ps
        (better-IsList best found b (λ qs q.
          candidate-IsList off qs
            (except-some index_error _ qs (except-some value_error _ qs (e ∙ ap ok q)))))
        h₁
