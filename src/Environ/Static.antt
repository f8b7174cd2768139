-- ===== src/Environ/Static.antt =====
-- meinheld/server/http_request_parser.c: the objects that all environs share.
use meinheld.Base.{
  ℕ, ◌≡◌, refl, true, false, Option, none, some, List, [], ◌∷◌, if◌then◌else◌, codes, bytes_eq,
}
use meinheld.Environ.{Value, text, flag, object, pair_of}

-- What `setup_static_env` makes, by the names of its variables; `errors_val` is borrowed. The port is
-- given by its digits.
unfoldable pub setup_static_env : List ℕ → List ℕ → List (List ℕ × Value)
setup_static_env server_name server_port =
    (codes "empty_string", text (codes ""))
    ∷ (codes "separator_string", text (codes ", "))
    ∷ (codes "version_val", pair_of 1 0)
    ∷ (codes "version_key", text (codes "wsgi.version"))
    ∷ (codes "scheme_val", text (codes "http"))
    ∷ (codes "scheme_key", text (codes "wsgi.url_scheme"))
    ∷ (codes "errors_key", text (codes "wsgi.errors"))
    ∷ (codes "multithread_val", flag false)
    ∷ (codes "multithread_key", text (codes "wsgi.multithread"))
    ∷ (codes "multiprocess_val", flag true)
    ∷ (codes "multiprocess_key", text (codes "wsgi.multiprocess"))
    ∷ (codes "run_once_val", flag false)
    ∷ (codes "run_once_key", text (codes "wsgi.run_once"))
    ∷ (codes "file_wrapper_val", object 1)
    ∷ (codes "file_wrapper_key", text (codes "wsgi.file_wrapper"))
    ∷ (codes "wsgi_input_key", text (codes "wsgi.input"))
    ∷ (codes "script_key", text (codes "SCRIPT_NAME"))
    ∷ (codes "server_name_val", text server_name)
    ∷ (codes "server_name_key", text (codes "SERVER_NAME"))
    ∷ (codes "server_port_val", text server_port)
    ∷ (codes "server_port_key", text (codes "SERVER_PORT"))
    ∷ (codes "remote_addr_key", text (codes "REMOTE_ADDR"))
    ∷ (codes "remote_port_key", text (codes "REMOTE_PORT"))
    ∷ (codes "server_protocol_key", text (codes "SERVER_PROTOCOL"))
    ∷ (codes "path_info_key", text (codes "PATH_INFO"))
    ∷ (codes "query_string_key", text (codes "QUERY_STRING"))
    ∷ (codes "request_method_key", text (codes "REQUEST_METHOD"))
    ∷ (codes "client_key", text (codes "meinheld.client"))
    ∷ (codes "content_type_key", text (codes "CONTENT_TYPE"))
    ∷ (codes "content_length_key", text (codes "CONTENT_LENGTH"))
    ∷ (codes "h_content_type_key", text (codes "HTTP_CONTENT_TYPE"))
    ∷ (codes "h_content_length_key", text (codes "HTTP_CONTENT_LENGTH"))
    ∷ (codes "server_protocol_val10", text (codes "HTTP/1.0"))
    ∷ (codes "server_protocol_val11", text (codes "HTTP/1.1"))
    ∷ (codes "http_method_delete", text (codes "DELETE"))
    ∷ (codes "http_method_get", text (codes "GET"))
    ∷ (codes "http_method_head", text (codes "HEAD"))
    ∷ (codes "http_method_post", text (codes "POST"))
    ∷ (codes "http_method_put", text (codes "PUT"))
    ∷ (codes "http_method_patch", text (codes "PATCH"))
    ∷ (codes "http_method_connect", text (codes "CONNECT"))
    ∷ (codes "http_method_options", text (codes "OPTIONS"))
    ∷ (codes "http_method_trace", text (codes "TRACE"))
    ∷ (codes "http_method_copy", text (codes "COPY"))
    ∷ (codes "http_method_lock", text (codes "LOCK"))
    ∷ (codes "http_method_mkcol", text (codes "MKCOL"))
    ∷ (codes "http_method_move", text (codes "MOVE"))
    ∷ (codes "http_method_propfind", text (codes "PROPFIND"))
    ∷ (codes "http_method_proppatch", text (codes "PROPPATCH"))
    ∷ (codes "http_method_unlock", text (codes "UNLOCK"))
    ∷ (codes "http_method_report", text (codes "REPORT"))
    ∷ (codes "http_method_mkactivity", text (codes "MKACTIVITY"))
    ∷ (codes "http_method_checkout", text (codes "CHECKOUT"))
    ∷ (codes "http_method_merge", text (codes "MERGE"))
    ∷ []

unfoldable pub release_one : List ℕ → List (List ℕ × Value) → Option (List (List ℕ × Value))
release_one name [] = none
release_one name ((n, v) ∷ held) =
    if bytes_eq n name then some held else kept (n, v) (release_one name held)
  where
    kept : List ℕ × Value → Option (List (List ℕ × Value)) → Option (List (List ℕ × Value))
    kept x none = none
    kept x (some held) = some (x ∷ held)

-- The releases, one after the other; `none` is a release of an object that is not held.
unfoldable pub release_each : List (List ℕ) → List (List ℕ × Value) → Option (List (List ℕ × Value))
unfolding release_one
release_each [] held = some held
release_each (name ∷ names) held = then_each (release_one name held) (release_each names)
  where
    then_each :
        Option (List (List ℕ × Value))
        → (List (List ℕ × Value) → Option (List (List ℕ × Value)))
        → Option (List (List ℕ × Value))
    then_each none rest = none
    then_each (some held) rest = rest held

abbrev pub cleared_names : List (List ℕ)
cleared_names =
    codes "empty_string"
    ∷ codes "version_key"
    ∷ codes "version_val"
    ∷ codes "scheme_key"
    ∷ codes "scheme_val"
    ∷ codes "errors_key"
    ∷ codes "multithread_key"
    ∷ codes "multithread_val"
    ∷ codes "multiprocess_key"
    ∷ codes "multiprocess_val"
    ∷ codes "run_once_key"
    ∷ codes "run_once_val"
    ∷ codes "file_wrapper_key"
    ∷ codes "file_wrapper_val"
    ∷ codes "wsgi_input_key"
    ∷ codes "script_key"
    ∷ codes "server_name_key"
    ∷ codes "server_name_val"
    ∷ codes "server_port_key"
    ∷ codes "server_port_val"
    ∷ codes "remote_addr_key"
    ∷ codes "remote_port_key"
    ∷ codes "server_protocol_key"
    ∷ codes "path_info_key"
    ∷ codes "query_string_key"
    ∷ codes "request_method_key"
    ∷ codes "client_key"
    ∷ codes "content_type_key"
    ∷ codes "content_length_key"
    ∷ codes "h_content_type_key"
    ∷ codes "h_content_length_key"
    ∷ codes "server_protocol_val10"
    ∷ codes "server_protocol_val11"
    ∷ codes "http_method_delete"
    ∷ codes "http_method_get"
    ∷ codes "http_method_head"
    ∷ codes "http_method_post"
    ∷ codes "http_method_put"
    ∷ codes "http_method_patch"
    ∷ codes "http_method_connect"
    ∷ codes "http_method_options"
    ∷ codes "http_method_trace"
    ∷ codes "http_method_copy"
    ∷ codes "http_method_lock"
    ∷ codes "http_method_mkcol"
    ∷ codes "http_method_move"
    ∷ codes "http_method_propfind"
    ∷ codes "http_method_proppatch"
    ∷ codes "http_method_unlock"
    ∷ codes "http_method_report"
    ∷ codes "http_method_mkactivity"
    ∷ codes "http_method_checkout"
    ∷ codes "http_method_merge"
    ∷ []

-- `clear_static_env`
unfoldable pub clear_static_env : List (List ℕ × Value) → Option (List (List ℕ × Value))
unfolding release_each
clear_static_env held = release_each cleared_names held

-- What is made is released once, but for the separator, whatever the name and the port.
pub clear_static_env-setup_static_env :
    (server_name server_port : List ℕ)
    → clear_static_env (setup_static_env server_name server_port)
      ≡ some ((codes "separator_string", text (codes ", ")) ∷ [])
unfolding clear_static_env release_each release_one setup_static_env bytes_eq
clear_static_env-setup_static_env server_name server_port = refl
