-- ===== src/Worker/Registry.antt =====
-- `TaskHandlerRegistry` of `task_engine/handlers.py`: a dictionary by type and payload version, as an
-- association list in the order of registration.
use media_sync.Prelude.{
  ℕ, String, ◌≡◌, false, ◌&&◌, ◌||◌, not, Option, none, some, List, [], ◌∷◌, ◌++◌, ◌==◌, ltb,
  is_empty, is_some, if◌then◌else◌, text_eq, text_eq_refl, arith,
}

pub record Entry (H : Type 0) : Type 0 where
  pub task_type : String
  pub payload_version : ℕ
  pub handler : H

module _ {H : Type 0} where
  -- `self._handlers.get((task_type, payload_version))`
  unfoldable pub resolve : String → ℕ → List (Entry H) → Option H
  resolve type version [] = none
  resolve type version (e ∷ es) =
      if text_eq e.task_type type && (e.payload_version == version)
      then some e.handler
      else resolve type version es

  -- `register`; `none` is its ValueError.
  unfoldable pub register : String → ℕ → H → List (Entry H) → Option (List (Entry H))
  register type version handler es =
      if is_empty type || not (ltb 0 version) || is_some (resolve type version es)
      then none
      else some
          (es ++ record { task_type = type; payload_version = version; handler = handler } ∷ [])

  resolve-append :
      (type : String) (version : ℕ) (es : List (Entry H)) (e : Entry H)
      → resolve type version (es ++ e ∷ []) ≡ (elim (resolve type version es) [
        | none ↦
            if text_eq e.task_type type && (e.payload_version == version)
            then some e.handler
            else none
        | some h ↦ some h
      ])
  unfolding resolve
  resolve-append type version [] e = ground arith
  resolve-append type version (d ∷ es) e = ground (arith, resolve-append type version es e)

  -- After a registration that succeeds its key gives its handler, and every other key what it gave before, so no
  -- handler is ever replaced.
  pub resolve-register :
      (type : String) (version : ℕ) (handler : H) (es : List (Entry H)) {es' : List (Entry H)}
      → register type version handler es ≡ some es'
      → (resolve type version es' ≡ some handler)
        × ((other : String) (v : ℕ)
            → text_eq type other && (version == v) ≡ false
            → resolve other v es' ≡ resolve other v es)
  unfolding register
  resolve-register type version handler es {es'} h = (
    ground (arith, resolve-append type version es entry, text_eq_refl type),
    λ other v n. ground (arith, resolve-append other v es entry),
  )
    where
      entry : Entry H
      entry = record { task_type = type; payload_version = version; handler = handler }
