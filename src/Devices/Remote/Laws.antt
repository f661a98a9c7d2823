-- ===== src/Devices/Remote/Laws.antt =====
-- The buttons of the remote, as they are published.
use ros2_canopen.Base.{
  ℕ, zero, suc, ◌+◌, ◌*◌, ◌<◌, ◌≡◌, refl, ap, sym, subst, arith, length, true, false, if◌then◌else◌,
  some, List, [], ◌∷◌, ◌++◌, map, inl, inr, Bool-cases,
}
use ros2_canopen.Base.Bits.{bit}
use ros2_canopen.Core.Manager.{value_or}
use ros2_canopen.Nodes.Drive.{get_elem?}
use ros2_canopen.Devices.Remote.{
  Bridge, Remote, BitSpec, bits_of, is_empty, read_u8, read_bit, expand, read_buttons, button_count,
}

length-map {ℓ κ} :
    {A : Type ℓ} {B : Type κ} (f : A → B) (xs : List A) → length (map f xs) ≡ length xs
length-map f [] = refl
length-map f (x ∷ xs) = omega (arith, length-map f xs)

get-bits_of :
    (byte b : ℕ) (rest : List ℕ) → b < 8 → get_elem? (bits_of byte ++ rest) b ≡ some (bit byte b)
unfolding get_elem?
get-bits_of byte zero rest h = refl
get-bits_of byte (suc zero) rest h = refl
get-bits_of byte (suc (suc zero)) rest h = refl
get-bits_of byte (suc (suc (suc zero))) rest h = refl
get-bits_of byte (suc (suc (suc (suc zero)))) rest h = refl
get-bits_of byte (suc (suc (suc (suc (suc zero))))) rest h = refl
get-bits_of byte (suc (suc (suc (suc (suc (suc zero)))))) rest h = refl
get-bits_of byte (suc (suc (suc (suc (suc (suc (suc zero))))))) rest h = refl
get-bits_of byte (suc (suc (suc (suc (suc (suc (suc (suc b)))))))) rest h = absurd (omega arith)

get-behind :
    (byte k : ℕ) (rest : List ℕ)
    → get_elem? (bits_of byte ++ rest) (suc (suc (suc (suc (suc (suc (suc (suc k))))))))
      ≡ get_elem? rest k
unfolding get_elem?
get-behind byte k rest = refl

eight_more : (n b : ℕ) → suc (suc (suc (suc (suc (suc (suc (suc (n * 8 + b)))))))) ≡ suc n * 8 + b
eight_more n b = omega arith

module _ {D : Type 0} (bridge : Bridge D) where
  length-expand : (s : Remote D) (subs : List ℕ) → length (expand bridge s subs) ≡ length subs * 8
  unfolding expand
  length-expand s [] = refl
  length-expand s (sub ∷ subs) = omega (arith, length-expand s subs)

  get-expand :
      (s : Remote D) (subs : List ℕ) (n b sub : ℕ)
      → b < 8
      → get_elem? subs n ≡ some sub
      → get_elem? (expand bridge s subs) (n * 8 + b)
        ≡ some (bit (read_u8 bridge s s.registers.digital_input_index sub) b)
  unfolding expand get_elem?
  get-expand s [] n b sub h e = absurd (ground (arith, e))
  get-expand s (x ∷ subs) zero b sub h e =
      let first : 0 + b ≡ b = omega arith in
      subst
        (λ y.
          get_elem? (expand bridge s (x ∷ subs)) (0 + b)
          ≡ some (bit (read_u8 bridge s s.registers.digital_input_index y) b))
        (ap (value_or x) e)
        (subst
          (λ k.
            get_elem? (expand bridge s (x ∷ subs)) k
            ≡ some (bit (read_u8 bridge s s.registers.digital_input_index x) b))
          (sym first)
          (get-bits_of (read_u8 bridge s s.registers.digital_input_index x) b (expand bridge s subs)
            h))
  get-expand s (x ∷ subs) (suc n) b sub h e =
      let byte = read_u8 bridge s s.registers.digital_input_index x in
      subst
        (λ k.
          get_elem? (bits_of byte ++ expand bridge s subs) k
          ≡ some (bit (read_u8 bridge s s.registers.digital_input_index sub) b))
        (eight_more n b) (get-expand s subs n b sub h e)

  get-map {ℓ} :
      {A : Type ℓ} (f : A → ℕ) (xs : List A) (n : ℕ) (x : A)
      → get_elem? xs n ≡ some x
      → get_elem? (map f xs) n ≡ some (f x)
  unfolding get_elem?
  get-map f [] n x e = absurd (ground (arith, e))
  get-map f (y ∷ xs) zero x e = ap (λ o. some (f (value_or y o))) e
  get-map f (y ∷ xs) (suc n) x e = get-map f xs n x e

  length-read_buttons : (s : Remote D) → length (read_buttons bridge s) ≡ button_count s
  unfolding read_buttons button_count
  length-read_buttons s = elim (Bool-cases (is_empty s.buttons)) [
    | inl e ↦ rw e (length-expand s s.polled_digital_subs)
    | inr e ↦ rw e (length-map (λ spec. if read_bit bridge s spec then 1 else 0) s.buttons)
  ]

  -- With a list of buttons, the one that is published at a position is the bit that the list has
  -- there.
  pub read_buttons_listed :
      (s : Remote D) (n : ℕ) (spec : BitSpec)
      → is_empty s.buttons ≡ false
      → get_elem? s.buttons n ≡ some spec
      → get_elem? (read_buttons bridge s) n ≡ some (if read_bit bridge s spec then 1 else 0)
  unfolding read_buttons
  read_buttons_listed s n spec e k =
      rw e (get-map (λ x. if read_bit bridge s x then 1 else 0) s.buttons n spec k)

  -- Without a list of buttons, as many are published as `button_count` tells, and the one at position
  -- 8 n + b, b being below 8, is the bit b of the byte that is read from the polled subindex at
  -- position n.
  pub read_buttons_expanded :
      (s : Remote D) (n b sub : ℕ)
      → is_empty s.buttons ≡ true
      → b < 8
      → get_elem? s.polled_digital_subs n ≡ some sub
      → (length (read_buttons bridge s) ≡ button_count s)
        × (get_elem? (read_buttons bridge s) (n * 8 + b)
            ≡ some (bit (read_u8 bridge s s.registers.digital_input_index sub) b))
  unfolding read_buttons
  read_buttons_expanded s n b sub e h k =
      (length-read_buttons s, rw e (get-expand s s.polled_digital_subs n b sub h k))
