-- ===== src/Portal/Samples.antt =====
-- A page, its data and a sequence of events, for the tests.
use the_black_hole.Prelude.{
  ◌+◌, ◌-◌, ◌*◌, ◌/◌, decimal, String, List, [], ◌∷◌, none, some, true, false,
}
use the_black_hole.Portal.Types.{Connection, Endpoint, Log, ClientToken, response, login, null}
use the_black_hole.Portal.World.{World, Element, Dom}
use the_black_hole.Portal.Loop.{Event, act, reply, type_text, Action}

abbrev pub blank : Element
blank = record {
  content = [];
  value = "";
  checked = false;
  class_name = "";
  hidden = false;
  active = false;
  href = "";
}

-- Every element that is asked for exists.
abbrev pub full_page : Dom
full_page id = some blank

abbrev pub fresh : World
fresh = record {
  state = record {
    token = "";
    username = "";
    connections = [];
    endpoints = [];
    logs = [];
    tokens = [];
  };
  storage = record { token = none; username = none; theme = none };
  hash = "";
  announced = 0;
  host = "localhost:8080";
  protocol = "http:";
  location = "";
  listening = 0;
  page = full_page;
  dom = full_page;
  sections = "view-dashboard" ∷ "view-logs" ∷ [];
  navs = "nav-dashboard" ∷ "nav-logs" ∷ [];
  sent = [];
  held = [];
  timers = 0;
  reloading = false;
  browser = record {
    locale_date = λ s. s;
    query_param = λ query name. none;
    inner_text = λ nodes. "Dashboard";
    doubles = record {
      of_nat = λ n. n;
      plus = λ m n. m + n;
      minus = λ m n. m - n;
      times = λ m n. m * n;
      divide = λ m n. m / n;
      text = decimal;
    };
    client_width = λ id. 0;
  };
  light = false;
}

-- A user logs in, is accepted, and one of the loaders gets its reply.
abbrev pub logging_in : List Event
logging_in =
    act (type_text "username" "admin")
    ∷ act (type_text "password" "secret")
    ∷ act Action.login
    ∷ reply 0 (response 200 (login (record { token = "t1"; username = "admin"; error = "" })))
    ∷ reply 0 (response 200 null)
    ∷ []

abbrev pub log : String → Log
log name = record {
  timestamp = "2026-01-01";
  client_identity = "claude";
  tool_name = name;
  status = "success";
  duration_ms = 12;
  error_message = "";
}

abbrev pub hostile : ClientToken
hostile = record {
  client_name = "<b>";
  token = "x');alert('1";
  client_role = "admin";
  scopes = "";
  enabled = true;
}

abbrev pub weather : Connection
weather = record {
  id = "c1";
  name = "Weather";
  description = "";
  tool_prefix = "w_";
  base_url = "https://weather";
  auth_type = "none";
  auth_secret_ref = "";
  enabled = true;
}

-- Two connections without a common prefix that come to offer a tool under one name.
abbrev pub plain : Connection
plain = record (weather) { id = "c2"; name = "Plain"; tool_prefix = "" }

abbrev pub tool : (connection_id name : String) → Endpoint
tool connection_id name = record {
  id = "e";
  connection_id = connection_id;
  tool_name = name;
  tool_description = "";
  path = "/";
  method = "GET";
  parameters_schema = "";
  template = "";
}
