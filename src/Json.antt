-- ===== src/Json.antt =====
-- The Python values that `json` reads and writes, and the tests that the program makes on them.
-- A float is the number of microseconds that it stands for: the program's floats are times.
use reqable_mcp.Prelude.{String, ◌≡◌, refl, ap, Bool, List, [], ◌∷◌}
use reqable_mcp.Prelude.Int.{ℤ}
use reqable_mcp.Prelude.Dict.{Dict}

mutual
  pub data Json : Type 0 where
    null : Json
    bool : Bool → Json
    int : ℤ → Json
    float : ℤ → Json
    str : String → Json
    arr : Items → Json
    obj : Fields → Json

  pub data Items : Type 0 where
    nil : Items
    cons : Json → Items → Items

  pub data Fields : Type 0 where
    end : Fields
    field : String → Json → Fields → Fields

-- The dictionary that an object is, and the object that a dictionary is.
abbrev pub to_dict : Fields → Dict Json
to_dict end = []
to_dict (field k v fs) = (k, v) ∷ to_dict fs

abbrev pub of_dict : Dict Json → Fields
of_dict [] = end
of_dict ((k, v) ∷ d) = field k v (of_dict d)

abbrev pub to_list : Items → List Json
to_list nil = []
to_list (cons v vs) = v ∷ to_list vs

abbrev pub of_list : List Json → Items
of_list [] = nil
of_list (v ∷ vs) = cons v (of_list vs)

pub to_dict-of_dict : (d : Dict Json) → to_dict (of_dict d) ≡ d
to_dict-of_dict [] = refl
to_dict-of_dict ((k, v) ∷ d) = ap (◌∷◌ (k, v)) (to_dict-of_dict d)

pub to_list-of_list : (vs : List Json) → to_list (of_list vs) ≡ vs
to_list-of_list [] = refl
to_list-of_list (v ∷ vs) = ap (◌∷◌ v) (to_list-of_list vs)
