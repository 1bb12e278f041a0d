-- ===== src/JsMap/Laws.antt =====
-- What a map holds after it is changed, and that its keys stay distinct.
use vda_5050_lib_2_0_0_js.Prelude.{
  suc, ◌≡◌, refl, true, false, [], ◌∷◌, none, some, ◌++◌, beq_refl, Eq, ◌==◌, arith, if◌then◌else◌,
}
use vda_5050_lib_2_0_0_js.JsMap.{JsMap, get, has, set, delete, size}

module _ {ℓ κ} {K : Type ℓ} {V : Type κ} ⦃e : Eq K⦄ where
  pub get-set :
      (j k : K) (v : V) (m : JsMap K V) → get j (set k v m) ≡ (if k == j then some v else get j m)
  unfolding get set
  get-set j k v [] = refl
  get-set j k v ((i, w) ∷ m) =
      ground (arith, e.equals_iff k j, e.equals_iff i k, e.equals_iff i j, get-set j k v m)

  pub get-delete :
      (j k : K) (m : JsMap K V) → get j (delete k m) ≡ (if k == j then none else get j m)
  unfolding get delete
  get-delete j k [] = ground arith
  get-delete j k ((i, w) ∷ m) =
      ground (arith, e.equals_iff k j, e.equals_iff i k, e.equals_iff i j, get-delete j k m)

  -- No key occurs twice.
  abbrev pub HasDistinctKeys : JsMap K V → Type κ
  HasDistinctKeys [] = Unit
  HasDistinctKeys ((k, v) ∷ m) = (get k m ≡ none) × HasDistinctKeys m

  pub set-HasDistinctKeys :
      (k : K) (v : V) (m : JsMap K V) → HasDistinctKeys m → HasDistinctKeys (set k v m)
  unfolding set get
  set-HasDistinctKeys k v [] h = (refl, tt)
  set-HasDistinctKeys k v ((i, w) ∷ m) h =
      ground
        (arith, get-set i k v m, e.equals_iff i k, e.equals_iff k i, set-HasDistinctKeys k v m h.1)

  pub delete-HasDistinctKeys :
      (k : K) (m : JsMap K V) → HasDistinctKeys m → HasDistinctKeys (delete k m)
  unfolding delete
  delete-HasDistinctKeys k [] h = tt
  delete-HasDistinctKeys k ((i, w) ∷ m) h =
      ground (
        arith,
        get-delete i k m,
        e.equals_iff i k,
        e.equals_iff k i,
        delete-HasDistinctKeys k m h.1,
      )

  pub has-get :
      (k : K) (m : JsMap K V) → has k m ≡ (elim (get k m) [ none ↦ false | some v ↦ true ])
  unfolding has get
  has-get k [] = refl
  has-get k ((j, v) ∷ m) = ground (arith, has-get k m)

  pub size-set_absent :
      (k : K) (v : V) (m : JsMap K V) → get k m ≡ none → size (set k v m) ≡ suc (size m)
  unfolding set get
  size-set_absent k v [] h = refl
  size-set_absent k v ((i, w) ∷ m) h = ground (arith, size-set_absent k v m)

  pub get_empty : (k : K) (m : JsMap K V) → size m ≡ 0 → get k m ≡ none
  unfolding get
  get_empty k [] h = refl
  get_empty k (b ∷ m) h = absurd (omega arith)

  pub delete-set_absent :
      (k : K) (v : V) (m : JsMap K V) → get k m ≡ none → delete k (set k v m) ≡ m
  unfolding delete set get
  delete-set_absent k v [] h = rw (beq_refl k) refl
  delete-set_absent k v ((i, w) ∷ m) h = ground (arith, e.equals_iff i k, delete-set_absent k v m)

  -- The entries of a list, seen as a map whose first entries come first.
  pub get-append :
      (k : K) (m n : JsMap K V)
      → get k (m ++ n) ≡ (elim (get k m) [ none ↦ get k n | some v ↦ some v ])
  unfolding get
  get-append k [] n = refl
  get-append k ((j, v) ∷ m) n = ground (arith, get-append k m n)
