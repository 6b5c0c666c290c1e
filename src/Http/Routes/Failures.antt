-- ===== src/Http/Routes/Failures.antt =====
-- What a client sees when a source can not be reached.
use alice_lg.Common.{Bool, true, false}
use alice_lg.Common.Texts.{Text, codes}
use alice_lg.Api.Route.{Route}
use alice_lg.Http.Errors.{ErrorResponse}

-- The response to a connection that was refused, or else timed out
abbrev pub unreachable : Bool → Text → ErrorResponse
unreachable true id = record {
  message = codes "Connection refused while dialing the API";
  code = 100;
  tag = "CONNECTION_REFUSED";
  routeserver_id = id;
}
unreachable false id = record {
  message = codes "Connection timed out when connecting to the backend API";
  code = 101;
  tag = "CONNECTION_TIMEOUT";
  routeserver_id = id;
}
