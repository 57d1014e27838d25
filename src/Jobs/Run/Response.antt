-- ===== src/Jobs/Run/Response.antt =====
-- What the agent left in the result file: `_read_agent_response`, `_normalize_agent_response` and
-- `_string_list` of jobs.py. `str_of` stands for `str` on a decoded value.
use Prim.Native.String.{◌++◌ as ◌⧺◌}
use coordinate.Base.{String, Option, none, some, string_dec_eq, Result, ok, err, ◌>>=◌}
use coordinate.Jobs.Errors.{J, result_unreadable}
use coordinate.Json.{Json, null, text, arr, obj, Items, nil, cons, Fields, end, field, get, put}

-- The file: not there, not read or decoded for another reason than `JSONDecodeError` (bytes that
-- are no UTF-8, an error of the system), of white space only, no JSON (with the decoder's message),
-- or a value.
pub data ResultFile : Type 0 where
  absent unreadable blank : ResultFile
  undecodable : String → ResultFile
  contents : Json → ResultFile

-- `(response, response_error)`: no pair that the function returns has both.
pub data Reading : Type 0 where
  no_response : Reading
  response : Fields → Reading
  response_error : String → Reading

-- a.update(b)
unfoldable pub merge : Fields → Fields → Fields
merge a end = a
merge a (field k v b) = merge (put a k v) b

module _ (str_of : Json → String) where
  abbrev pub items_text : Items → Items
  items_text nil = nil
  items_text (cons x xs) = cons (text (str_of x)) (items_text xs)

  abbrev pub string_list : Json → String → Result String Items
  string_list (arr xs) name = ok (items_text xs)
  string_list _ name = err ("AgentResponse field " ⧺ (name ⧺ " must be a list"))

  -- if value.get(k) is not None: response[name] = str(value[k])
  abbrev pub copied : Option Json → String → Fields → Fields
  copied none name r = r
  copied (some null) name r = r
  copied (some v) name r = put r name (text (str_of v))

  abbrev pub copied_list : Option Json → String → Fields → Result String Fields
  copied_list none name r = ok r
  copied_list (some null) name r = ok r
  copied_list (some v) name r = do xs ← string_list v name; ok (put r name (arr xs))

  unfoldable pub normalize_agent_response : Fields → Result String Fields
  normalize_agent_response value = do
    listed ←
        copied_list (get value "artifact_paths") "artifact_paths"
          (copied (get value "summary") "summary" (copied (get value "status") "agent_status" end))
    ok (
        copied (get value "logs_path") "agent_logs_path" (
          copied (get value "pr") "pr"
            (copied (get value "commit") "commit" (copied (get value "branch") "branch" listed))))

  abbrev pub reading_of : Result String Fields → Reading
  reading_of (ok r) = response r
  reading_of (err e) = response_error e

  unfoldable pub read_agent_response : String → ResultFile → J Reading
  unfolding normalize_agent_response
  read_agent_response path absent = ok no_response
  read_agent_response path unreadable = err result_unreadable
  read_agent_response path blank = ok no_response
  read_agent_response path (undecodable e) =
      ok (response_error ("invalid AgentResponse JSON at " ⧺ (path ⧺ (": " ⧺ e))))
  read_agent_response path (contents (obj value)) = ok (reading_of (normalize_agent_response value))
  read_agent_response path (contents _) =
      ok (response_error ("AgentResponse at " ⧺ (path ⧺ " must be a JSON object")))
