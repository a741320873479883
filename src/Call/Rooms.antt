-- ===== src/Call/Rooms.antt =====
-- The functions of server/app/domains/call/services/livekit_service.py that call LiveKit. What the
-- LiveKit server does is an argument: the names of its rooms, or the text of the exception raised.
use nalang_project.Prelude.{String, Bool, true, List}
use nalang_project.Text.{◌+s◌}
use nalang_project.Raise.{Result, ok, err, http}

pub record VideoGrants : Type 0 where
  pub room_join : Bool
  pub room : String
  pub can_subscribe : Bool
  pub can_publish : Bool
  pub can_publish_data : Bool

-- What `api.AccessToken(key, secret)` is told before `to_jwt()`.
pub record AccessToken : Type 0 where
  pub api_key : String
  pub api_secret : String
  pub identity : String
  pub name : String
  pub grants : VideoGrants

unfoldable pub create_access_token :
    (AccessToken → String) → String → String → String → String → String
create_access_token to_jwt key secret identity room_name = to_jwt (record {
  api_key = key;
  api_secret = secret;
  identity = identity;
  name = identity;
  grants = record {
    room_join = true;
    room = room_name;
    can_subscribe = true;
    can_publish = true;
    can_publish_data = true;
  };
})

pub data Reply (A : Type 0) : Type 0 where
  answer : A → Reply A
  failure : String → Reply A

-- `{"deleted": room_name}`, or status 500 with the text of the exception
unfoldable pub delete_room_in_livekit : (String → Reply Unit) → String → Result String
delete_room_in_livekit delete room_name = elim (delete room_name) [
  | answer _ ↦ ok room_name
  | failure e ↦ err (http 500 ("Failed to delete room: " +s e))
]

-- `{"rooms": [...]}` or `{"error": ...}`
pub data Rooms : Type 0 where
  rooms : List String → Rooms
  error : String → Rooms

unfoldable pub list_room : Reply (List String) → Rooms
list_room (answer names) = rooms names
list_room (failure e) = error e
