-- ===== src/Labrpc/Server/Methods.antt =====
-- labrpc/labrpc.go: which method a call of a server runs.
use mr_and_raft.Common.{
  Text, eq_text, eq_text_refl, eq_text_sound, ◌⊎◌, ◌+◌, ◌==◌, ◌≡◌, refl, inl, inr, true, false,
  Option, none, some, List, [], ◌∷◌, ◌++◌, if◌then◌else◌, Bool-cases, ◌∙◌, some_inj, >>=-eq-some,
}
use mathlib.Core.List.{Memᴰ}
use mathlib.Core.Path.{subst}
use mr_and_raft.Labrpc.Server.{
  put_at, split_method, Method, Server, is_handler, methods_of, make_service, add_service, enter,
  call_method,
}

abbrev pub NoDot : Text → Type 0
NoDot [] = Unit
NoDot (c ∷ cs) = ((c == 46) ≡ false) × NoDot cs

split_method-none : (cs : Text) → NoDot cs → split_method cs ≡ none
unfolding split_method
split_method-none [] h = refl
split_method-none (c ∷ cs) h = rw (split_method-none cs h.1, h.0) refl

-- A method's name that has no dot is found behind the last dot, whatever stands before it.
pub split_method-append :
    (service method : Text)
    → NoDot method
    → split_method (service ++ 46 ∷ method) ≡ some (service, method)
unfolding split_method
split_method-append [] method h = rw (split_method-none method h) refl
split_method-append (c ∷ service) method h = rw (split_method-append service method h) refl

module _ {ℓ} {W : Type ℓ} where
  put_other :
      (methods : Text → Option (Method W)) (method : Method W) (name : Text)
      → eq_text method.name name ≡ false
      → put_at methods method.name method name ≡ methods name
  put_other methods method name h = rw h refl

  put_here :
      (methods : Text → Option (Method W)) (name : Text) (method : Method W)
      → put_at methods name method name ≡ some method
  put_here methods name method = rw (eq_text_refl name) refl

  -- No method of the list has the name.
  abbrev pub NotNamed : Text → List (Method W) → Type 0
  NotNamed name [] = Unit
  NotNamed name (method ∷ all) = (eq_text method.name name ≡ false) × NotNamed name all

  methods_of-NotNamed :
      (name : Text) (all : List (Method W)) (methods : Text → Option (Method W))
      → NotNamed name all
      → methods_of all methods name ≡ methods name
  unfolding methods_of
  methods_of-NotNamed name [] methods h = refl
  methods_of-NotNamed name (method ∷ all) methods h = elim (Bool-cases (is_handler method)) [
    | inr other ↦ rw other (methods_of-NotNamed name all methods h.1)
    | inl fits ↦ rw fits (
        methods_of-NotNamed name all (put_at methods method.name method) h.1
        ∙ put_other methods method name h.0)
  ]

  methods_of-append :
      (before : List (Method W)) (method : Method W) (after : List (Method W))
      (methods : Text → Option (Method W))
      → is_handler method ≡ true
      → NotNamed method.name after
      → methods_of (before ++ method ∷ after) methods method.name ≡ some method
  unfolding methods_of
  methods_of-append [] method after methods fits h =
      rw (methods_of, fits)
        (methods_of-NotNamed method.name after (put_at methods method.name method) h
          ∙ put_here methods method.name method)
  methods_of-append (other ∷ before) method after methods fits h =
      methods_of-append before method after
        (if is_handler other then put_at methods other.name other else methods) fits h

  -- A handler for a name is one of the methods of the type, fits, and has the name.
  abbrev pub IsHandlerFor : Text → List (Method W) → Method W → Type ℓ
  IsHandlerFor name all m = Memᴰ m all × (is_handler m ≡ true) × (m.name ≡ name)

  earlier :
      {name : Text} {all : List (Method W)} {m : Method W} (other : Method W)
      → IsHandlerFor name all m
      → IsHandlerFor name (other ∷ all) m
  earlier other (among, fits, named) = (Memᴰ.tail among, fits, named)

  first_handler :
      (methods : Text → Option (Method W)) (name : Text) (method m : Method W)
      (all : List (Method W))
      → is_handler method ≡ true
      → put_at methods method.name method name ≡ some m
      → IsHandlerFor name (method ∷ all) m ⊎ (methods name ≡ some m)
  first_handler methods name method m all fits e = elim (Bool-cases (eq_text method.name name)) [
    | inr there ↦ inr (rw there at e)
    | inl here ↦
        let same : method ≡ m = some_inj (rw here at e) in
        inl (
          subst (IsHandlerFor name (method ∷ all)) same
            (Memᴰ.head refl, fits, eq_text_sound method.name name here))
  ]

  -- What a name stands for is a handler of the list, or was there before.
  methods_of-IsHandlerFor :
      (all : List (Method W)) (methods : Text → Option (Method W)) (name : Text) (m : Method W)
      → methods_of all methods name ≡ some m
      → IsHandlerFor name all m ⊎ (methods name ≡ some m)
  unfolding methods_of
  methods_of-IsHandlerFor [] methods name m e = inr e
  methods_of-IsHandlerFor (method ∷ all) methods name m e = elim (Bool-cases (is_handler method)) [
    | inr other ↦ elim (methods_of-IsHandlerFor all methods name m (rw other at e)) [
      | inl later ↦ inl (earlier method later)
      | inr old ↦ inr old
    ]
    | inl fits ↦
        elim (methods_of-IsHandlerFor all (put_at methods method.name method) name m
          (rw fits at e)) [
            | inl later ↦ inl (earlier method later)
            | inr put ↦ first_handler methods name method m all fits put
          ]
  ]

  runs_handler :
      (type_name : Text) (all : List (Method W)) (name args : Text) (w w' : W) (reply : Text)
      → call_method (make_service type_name all) name args w ≡ some (w', reply)
      → (m : Method W) × IsHandlerFor name all m × (m.run args w ≡ (w', reply))
  unfolding call_method make_service
  runs_handler type_name all name args w w' reply e =
      let (m, at, ran) = >>=-eq-some (methods_of all (λ m. none) name) _ e in
      elim (methods_of-IsHandlerFor all (λ m. none) name m at) [
        | inl found ↦ (m, found, some_inj ran)
        | inr never ↦ cc
      ]

  -- On a server to which a service was added, a call of "Type.Method" runs the method of that name if
  -- it fits to be a handler, its name has no dot and no later method of the type has the same name;
  -- it counts the call; and a call that runs, of whatever name, runs a method of the type that fits
  -- and has that name.
  pub service_lem :
      (type_name : Text) (before : List (Method W)) (method : Method W) (after : List (Method W))
      (rs : Server W) (args : Text) (w : W)
      → is_handler method ≡ true
      → NoDot method.name
      → NotNamed method.name after
      → (enter
            (type_name ++ 46 ∷ method.name)
            (add_service (make_service type_name (before ++ method ∷ after)) rs)
          ≡ some (
            record (add_service (make_service type_name (before ++ method ∷ after)) rs) {
              count = rs.count + 1;
            },
            make_service type_name (before ++ method ∷ after),
            method.name,
          ))
        × (call_method (make_service type_name (before ++ method ∷ after)) method.name args w
            ≡ some (method.run args w))
        × ((name : Text) (w' : W) (reply : Text)
            → call_method (make_service type_name (before ++ method ∷ after)) name args w
              ≡ some (w', reply)
            → (m : Method W) × IsHandlerFor name (before ++ method ∷ after) m
              × (m.run args w ≡ (w', reply)))
  unfolding enter call_method make_service
  service_lem type_name before method after rs args w fits no_dot last = (
    rw (split_method-append type_name method.name no_dot, eq_text_refl type_name) refl,
    rw (methods_of-append before method after (λ m. none) fits last) refl,
    λ name w' reply e. runs_handler type_name (before ++ method ∷ after) name args w w' reply e,
  )
