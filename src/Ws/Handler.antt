-- ===== src/Ws/Handler.antt =====
-- api/internal/ws/handler.go: how a connection to a room is opened.
use jejak_inderasakti_be.Shared.{
  subst, ℕ, ◌≡◌, inl, inr, refl, String, Bool, true, false, ◌||◌, List, [], ◌∷◌, Option, none, some,
  if◌then◌else◌, same, maybe, if_elim, maybe_elim, arith, Option-cases,
}
use jejak_inderasakti_be.Auth.{Role, host, player, other, Claims, Tokens, Jwt, parse}
use jejak_inderasakti_be.Store.Types.{StoreError, Fallible, ok, err}
use jejak_inderasakti_be.Game.State.{PlayerState, Room, Deps, Sink, find}
use jejak_inderasakti_be.Game.Room.{
  unknown_player, room_closed, RoomError, attach_host, attach_player,
}

-- Whether a browser's origin may connect; `equal_fold` is strings.EqualFold.
unfoldable pub check_origin : (String → String → Bool) → Bool → List String → String → Bool
check_origin equal_fold any [] origin = any || same origin ""
check_origin equal_fold any (allowed ∷ rest) origin =
    equal_fold allowed origin || check_origin equal_fold any rest origin

-- How a request to connect ends: a response with a status and a code, an upgrade that fails, a closed
-- connection (4401), or a connection that is served.
pub data Served : Type 0 where
  rejected : ℕ → String → Served
  not_upgraded closed_unauthorized : Served
  serves : Role → String → Served

unfoldable pub reject_room_error : StoreError → Served
reject_room_error StoreError.not_found = rejected 404 "ROOM_NOT_FOUND"
reject_room_error _ = rejected 500 "INTERNAL"

-- A host names its room in the request.
unfoldable pub room_id_of : Claims → String → String
room_id_of claims query_room = elim claims.role [ Role.host ↦ query_room | _ ↦ claims.room_id ]

module _ (d : Deps) where
  open d use {World}

  -- The loop of the room attaches the connection, and the call ends in ErrRoomClosed where the loop is
  -- over: `open_` says whether it still takes the call.
  unfoldable pub attach_to :
      Bool → Role → String → Sink → Room World → Option RoomError × Room World
  attach_to open_ role subject sink r =
      if open_
      then elim role [ host ↦ attach_host subject sink r | _ ↦ attach_player d subject sink r ]
      else (some room_closed, r)

  unfoldable pub serve_attached : Claims → Option RoomError × Room World → Served × Room World
  serve_attached claims (none, r) = (serves claims.role claims.subject, r)
  serve_attached claims (some e, r) = (closed_unauthorized, r)

  -- `get` resolves the room, `upgrades` says whether the upgrade of the connection works.
  unfoldable pub serve_room :
      Bool → Bool → Sink → Claims → Fallible (Room World) → Served × Option (Room World)
  serve_room upgrades open_ sink claims (err e) = (reject_room_error e, none)
  serve_room upgrades open_ sink claims (ok r) =
      if upgrades
      then (let (served, after) =
            serve_attached claims (attach_to open_ claims.role claims.subject sink r) in
          (served, some after))
      else (not_upgraded, some r)

  unfoldable pub serve_ws :
      Jwt
      → Tokens
      → (String → Fallible (Room World))
      → Bool
      → Bool
      → Sink
      → ℕ
      → String
      → String
      → Served × Option (Room World)
  serve_ws jwt tokens get upgrades open_ sink now token query_room =
      maybe (parse jwt tokens token now) ((rejected 401 "UNAUTHORIZED", none))
        (λ claims. serve_room upgrades open_ sink claims (get (room_id_of claims query_room)))

  -- The bearer belongs to the room: its host, or one of its players.
  abbrev pub Belongs : Role → String → Room World → Type 0
  Belongs host subject r = subject ≡ r.host_id
  Belongs player subject r = (p : PlayerState) × (find subject r.players ≡ some p)
  Belongs other subject r = (p : PlayerState) × (find subject r.players ≡ some p)

  attach_player-Belongs :
      (subject : String) (sink : Sink) (r : Room World)
      → (attach_player d subject sink r).0 ≡ none
      → (p : PlayerState) × (find subject r.players ≡ some p)
  unfolding attach_player
  attach_player-Belongs subject sink r e = elim (Option-cases (find subject r.players)) [
    | inl missing ↦ let refused : some unknown_player ≡ none = rw missing at e in cc
    | inr found ↦ found
  ]

  attach_role-Belongs :
      (role : Role) (subject : String) (sink : Sink) (r : Room World)
      → (attach_to true role subject sink r).0 ≡ none
      → Belongs role subject r
  unfolding attach_to attach_host
  attach_role-Belongs host subject sink r e =
      if_elim (λ (z : Option RoomError × Room World). z.0 ≡ none → subject ≡ r.host_id)
        (same subject r.host_id) (λ own _. ground (arith, own)) (λ _ f. cc) e
  attach_role-Belongs player subject sink r e = attach_player-Belongs subject sink r e
  attach_role-Belongs other subject sink r e = attach_player-Belongs subject sink r e

  attach_to-Belongs :
      (open_ : Bool) (role : Role) (subject : String) (sink : Sink) (r : Room World)
      → (attach_to open_ role subject sink r).0 ≡ none
      → Belongs role subject r
  unfolding attach_to
  attach_to-Belongs true role subject sink r e = attach_role-Belongs role subject sink r e
  attach_to-Belongs false role subject sink r e = cc

  -- What a served connection is: one whose token is valid at the time, to a room that is resolved, of
  -- which its bearer is the host or a player.
  abbrev pub IsAdmitted :
      Jwt → Tokens → (String → Fallible (Room World)) → ℕ → String → String → Role → String → Type 0
  IsAdmitted jwt tokens get now token query_room role subject =
      (claims : Claims) × (r : Room World) × (parse jwt tokens token now ≡ some claims)
      × (claims.role ≡ role)
      × (claims.subject ≡ subject)
      × (get (room_id_of claims query_room) ≡ ok r)
      × Belongs role subject r

  module _ (jwt : Jwt) (tokens : Tokens) (get : String → Fallible (Room World)) (sink : Sink)
      (now : ℕ) (token query_room : String) where
    -- A connection that is served is an admitted one.
    abbrev Admits : Served → Type 0
    Admits (serves role subject) = IsAdmitted jwt tokens get now token query_room role subject
    Admits _ = Unit

    attached-Admits :
        (claims : Claims) (r : Room World) (z : Option RoomError × Room World)
        → parse jwt tokens token now ≡ some claims
        → get (room_id_of claims query_room) ≡ ok r
        → (z.0 ≡ none → Belongs claims.role claims.subject r)
        → Admits (serve_attached claims z).0
    unfolding serve_attached
    attached-Admits claims r (none, after) p g h = (claims, r, p, refl, refl, g, h refl)
    attached-Admits claims r (some e, after) p g h = tt

    serve_room-Admits :
        (upgrades open_ : Bool) (claims : Claims) (found : Fallible (Room World))
        → parse jwt tokens token now ≡ some claims
        → get (room_id_of claims query_room) ≡ found
        → Admits (serve_room upgrades open_ sink claims found).0
    unfolding serve_room reject_room_error
    serve_room-Admits upgrades open_ claims (err StoreError.not_found) p g = tt
    serve_room-Admits upgrades open_ claims (err _) p g = tt
    serve_room-Admits true open_ claims (ok r) p g =
        attached-Admits claims r (attach_to open_ claims.role claims.subject sink r) p g
          (attach_to-Belongs open_ claims.role claims.subject sink r)
    serve_room-Admits false open_ claims (ok r) p g = tt

    serve_ws-Admits :
        (upgrades open_ : Bool)
        → Admits (serve_ws jwt tokens get upgrades open_ sink now token query_room).0
    unfolding serve_ws
    serve_ws-Admits upgrades open_ =
        maybe_elim (λ (z : Served × Option (Room World)). Admits z.0) (parse jwt tokens token now)
          (λ _. tt) (λ claims p. serve_room-Admits upgrades open_ claims _ p refl)

    -- A connection is served only with a token that is valid at the time, as the role and the subject of
    -- the token, in the room of a player's token or the room that a host asks for, and only to the
    -- host of that room or to one of its players.
    pub serve_ws-IsAdmitted :
        (upgrades open_ : Bool) (role : Role) (subject : String)
        → (serve_ws jwt tokens get upgrades open_ sink now token query_room).0 ≡ serves role subject
        → IsAdmitted jwt tokens get now token query_room role subject
    serve_ws-IsAdmitted upgrades open_ role subject e =
        subst Admits e (serve_ws-Admits upgrades open_)
