-- ===== src/Labrpc/Server.antt =====
-- labrpc/labrpc.go: `Server` and `Service`, from the name of a method to its run.
pub mod Methods
use mr_and_raft.Common.{
  Text, eq_text, ℕ, zero, suc, ◌+◌, ◌==◌, ◌≡◌, refl, inl, inr, Bool, true, false, not, ◌&&◌, ◌||◌,
  Option, none, some, List, [], ◌∷◌, ◌++◌, if◌then◌else◌, ◌>>=◌, Bool-cases, arith, ap, ◌∙◌,
  some_inj, >>=-eq-some,
}

-- A map with texts as keys, `m[key] = a`
abbrev pub put_at {ℓ} : {A : Type ℓ} → (Text → Option A) → Text → A → Text → Option A
put_at m key a other = if eq_text key other then some a else m other

-- `svcMeth[:dot]` and `svcMeth[dot+1:]` for the last dot
pub split_method : Text → Option (Text × Text)
split_method [] = none
split_method (c ∷ cs) =
    let rest = split_method cs in
    elim rest [
      | none ↦ if c == 46 then some ([], cs) else none
      | some parts ↦ let (service, method) = parts in some (c ∷ service, method)
    ]

-- What `MakeService` asks of a `reflect.Method`; `run` decodes the arguments, calls the method and
-- encodes its reply.
pub record Method {ℓ} (W : Type ℓ) : Type ℓ where
  pub name : Text
  pub pkg_path : Text
  pub num_in : ℕ
  pub reply_is_ptr : Bool
  pub num_out : ℕ
  pub run : Text → W → W × Text

pub record Service {ℓ} (W : Type ℓ) : Type ℓ where
  pub name : Text
  pub methods : Text → Option (Method W)

pub record Server {ℓ} (W : Type ℓ) : Type ℓ where
  pub services : Text → Option (Service W)
  pub count : ℕ

module _ {ℓ} {W : Type ℓ} where
  -- The test of `MakeService`; a reply type that is not there is no pointer, since the number of
  -- parameters is tested first.
  abbrev pub is_handler : Method W → Bool
  is_handler method = not (
      not (eq_text method.pkg_path [])
      || not (method.num_in == 3)
      || not method.reply_is_ptr
      || not (method.num_out == 0))

  -- The loop of `MakeService` over the methods of the receiver's type
  pub methods_of : List (Method W) → (Text → Option (Method W)) → Text → Option (Method W)
  methods_of [] methods = methods
  methods_of (method ∷ more) methods =
      methods_of more (if is_handler method then put_at methods method.name method else methods)

  unfoldable pub make_service : Text → List (Method W) → Service W
  unfolding methods_of
  make_service type_name all = record { name = type_name; methods = methods_of all (λ m. none) }

  abbrev pub make_server : Server W
  make_server = record { services = λ s. none; count = 0 }

  abbrev pub add_service : Service W → Server W → Server W
  add_service svc rs = record rs { services = put_at rs.services svc.name svc }

  -- `Service.dispatch`, from the bytes of the arguments to those of the reply
  unfoldable pub call_method : Service W → Text → Text → W → Option (W × Text)
  call_method svc name args w = do method ← svc.methods name; some (method.run args w)

  -- `Server.dispatch` up to the call of `Service.dispatch`: the service, and the name of its method
  unfoldable pub enter : Text → Server W → Option (Server W × Service W × Text)
  unfolding split_method
  enter svc_meth rs = do
    (service_name, method_name) ← split_method svc_meth
    service ← rs.services service_name
    some (record rs { count = rs.count + 1 }, service, method_name)
