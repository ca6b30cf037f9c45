-- ===== src/Trigger/Primitives/Samples.antt =====
-- An encoding of the primitive messages that reads back what it wrote, for the tests.
use pheromone.Base.{ℕ, zero, suc, ◌≡◌, refl, ap, ◌∙◌, Bytes, List, [], ◌∷◌}
use pheromone.Trigger.Primitives.{Wire, Wires}

-- Each text, its numbers raised by one, and a 0.
abbrev write_text : Bytes → Bytes → Bytes
write_text [] rest = 0 ∷ rest
write_text (x ∷ v) rest = suc x ∷ write_text v rest

abbrev write : List Bytes → Bytes
write [] = []
write (v ∷ vs) = write_text v (write vs)

abbrev extend : ℕ → List Bytes → List Bytes
extend x [] = (x ∷ []) ∷ []
extend x (v ∷ vs) = (x ∷ v) ∷ vs

abbrev read : Bytes → List Bytes
read [] = []
read (zero ∷ s) = [] ∷ read s
read (suc x ∷ s) = extend x (read s)

read-write_text : (v rest : Bytes) → read (write_text v rest) ≡ v ∷ read rest
read-write_text [] rest = refl
read-write_text (x ∷ v) rest = ap (extend x) (read-write_text v rest)

pub read-write : (vs : List Bytes) → read (write vs) ≡ vs
read-write [] = refl
read-write (v ∷ vs) = read-write_text v (write vs) ∙ ap (λ r. v ∷ r) (read-write vs)

abbrev first : List Bytes → Bytes
first [] = []
first (v ∷ vs) = v

abbrev behind : List Bytes → List Bytes
behind [] = []
behind (v ∷ vs) = vs

abbrev number : Bytes → ℕ
number [] = 0
number (x ∷ s) = x

module _ {M : Type 0} (encode : M → List Bytes) (decode : List Bytes → M)
    (law : (m : M) → decode (encode m) ≡ m) where
  abbrev wire : Wire M
  wire = record {
    serialize = λ m. write (encode m);
    parse = λ s. decode (read s);
    parse-serialize = λ m. ap decode (read-write (encode m)) ∙ law m;
  }

abbrev pub sample_wires : Wires
sample_wires = record {
  immediate_wire = wire (λ m. m.function ∷ []) (λ r. record { function = first r }) (λ m. refl);
  by_name_wire =
      wire (λ m. m.function ∷ m.key_name ∷ [])
        (λ r. record { function = first r; key_name = first (behind r) }) (λ m. refl);
  by_batch_size_wire =
      wire (λ m. m.function ∷ (m.count ∷ []) ∷ [])
        (λ r. record { function = first r; count = number (first (behind r)) }) (λ m. refl);
  by_set_wire =
      wire (λ m. m.function ∷ m.key_set) (λ r. record { function = first r; key_set = behind r })
        (λ m. refl);
  dynamic_group_wire =
      wire (λ m. m.function ∷ m.control_group)
        (λ r. record { function = first r; control_group = behind r }) (λ m. refl);
  redundant_wire =
      wire (λ m. m.function ∷ (m.k ∷ []) ∷ (m.n ∷ []) ∷ [])
        (λ r. record {
          function = first r;
          k = number (first (behind r));
          n = number (first (behind (behind r)));
        })
        (λ m. refl);
  by_time_wire =
      wire (λ m. m.function ∷ (m.time_window ∷ []) ∷ [])
        (λ r. record { function = first r; time_window = number (first (behind r)) }) (λ m. refl);
}
