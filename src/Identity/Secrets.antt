-- ===== src/Identity/Secrets.antt =====
-- config/secrets.py: the references to secrets in a configuration, and their resolution.
use mcp_zero_trust_layer.Base.{
  if◌then◌else◌, ◌==◌, truthy, nat_eq, string_eq, option_eq, int_eq, bool_eq, String, ◌<>◌, Bool,
  true, ◌&&◌, ◌||◌, Option, none, some, List, [], ◌∷◌, ◌++◌, map,
}
use mcp_zero_trust_layer.Base.Text.{behind, split_last}
use mcp_zero_trust_layer.Value.{
  Value, null, dict, get_or_null, secret_error, Outcome, ok, raise, ◌>>=◌,
}
use mcp_zero_trust_layer.Host.{Host}
use mcp_zero_trust_layer.Config.{capability_type_eq}

-- How a command of a secret provider ends: with its output (stripped), without the program, after the
-- time limit, or with an error.
pub data CommandResult : Type 0 where
  printed : String → CommandResult
  no_program : CommandResult
  timed_out : CommandResult
  command_fails : CommandResult

-- A text between references to variables, or such a reference.
pub data EnvPart : Type 0 where
  plain : String → EnvPart
  variable : String → EnvPart

-- `os.environ.get`; `urlparse(s).path`; `str(Path(s).expanduser())`; the stripped text of a file, where `none`
-- is an `OSError`; `subprocess.run`; `json.loads`, where `none` is a `JSONDecodeError`; a text taken apart
-- at the matches of `ENV_REF_RE`; `shutil.which(s) is not None`.
pub record SecretSources : Type 0 where
  pub getenv : String → Option String
  pub url_path : String → Outcome String
  pub expand_user : String → String
  pub read_text : String → Outcome (Option String)
  pub run : List String → CommandResult
  pub json_loads : String → Option Value
  pub env_parts : String → List EnvPart
  pub is_installed : String → Bool

-- `_split_reference`
unfoldable pub split_reference : String → String × Option String
unfolding split_last
split_reference reference = elim (split_last b'#' reference) [
  | none ↦ (reference, none)
  | some (path, key) ↦ (path, if truthy key then some key else none)
]

module _ (host : Host) (sources : SecretSources) (config_field : String) where
  abbrev pub secret_fails : String → Outcome String
  secret_fails message = raise (secret_error (config_field <> (" " <> message)))

  -- `_read_env`
  unfoldable pub read_env : String → Outcome String
  read_env name =
      let unset = secret_fails ("references unset environment variable: " <> name) in
      if truthy name
      then (elim (sources.getenv name) [ none ↦ unset | some v ↦ if truthy v then ok v else unset ])
      else secret_fails "references an empty environment variable name"

  -- `_read_file_secret`; `rest` is what stands behind "file:"
  unfoldable pub read_file_secret : String → String → Outcome String
  unfolding behind
  read_file_secret reference rest = do
    written ← (elim (behind "//" rest) [ none ↦ ok rest | some _ ↦ sources.url_path reference ])
    let path = sources.expand_user written
    content ← sources.read_text path
    elim content [
      | none ↦ secret_fails ("references unreadable secret file: " <> path)
      | some v ↦ if truthy v then ok v else secret_fails ("references empty secret file: " <> path)
    ]

  -- `_read_command_secret`
  unfoldable pub read_command_secret : List String → String → Outcome String
  read_command_secret command provider = elim (sources.run command) [
    | no_program ↦ secret_fails ("references " <> (provider <> ", but its CLI is not installed"))
    | timed_out ↦ secret_fails ("timed out while reading secret from " <> provider)
    | command_fails ↦ secret_fails ("could not read secret from " <> provider)
    | printed v ↦ if truthy v then ok v else secret_fails ("read an empty secret from " <> provider)
  ]

  -- `payload.get(json_field) if isinstance(payload, dict) else None`
  abbrev selected_in : Value → String → Value
  selected_in (dict fs) key = get_or_null key fs
  selected_in _ key = null

  -- `_select_json_field`
  unfoldable pub select_json_field : String → String → Outcome String
  unfolding get_or_null
  select_json_field text key = elim (sources.json_loads text) [
    | none ↦ secret_fails ("expected JSON secret material for #" <> key)
    | some payload ↦ (elim (selected_in payload key) [
      | null ↦ secret_fails ("could not find #" <> (key <> " in secret material"))
      | selected ↦ ok (host.to_str selected)
    ])
  ]

  -- `_read_aws_secret`, of what stands behind the prefix
  unfoldable pub read_aws_secret : String → Outcome String
  unfolding split_reference read_command_secret select_json_field
  read_aws_secret reference = do
    let (secret_id, key) = split_reference reference
    text ←
        read_command_secret
          ("aws" ∷ "secretsmanager" ∷ "get-secret-value" ∷ "--secret-id" ∷ secret_id ∷ "--query"
            ∷ "SecretString" ∷ "--output" ∷ "text" ∷ [])
          "AWS Secrets Manager"
    elim key [ none ↦ ok text | some k ↦ select_json_field text k ]

  -- `_read_vault_secret`, of what stands behind the prefix
  unfoldable pub read_vault_secret : String → Outcome String
  unfolding split_reference read_command_secret
  read_vault_secret reference =
      let (secret_path, key) = split_reference reference in
      let wanted : String = elim key [ none ↦ "value" | some k ↦ k ] in
      read_command_secret ("vault" ∷ "kv" ∷ "get" ∷ ("-field=" <> wanted) ∷ secret_path ∷ [])
        "Vault"

  -- `ENV_REF_RE.sub(replace, value)`
  unfoldable pub substitute : List EnvPart → Outcome String
  unfolding read_env
  substitute [] = ok ""
  substitute (plain text ∷ parts) = substitute parts >>= λ rest. ok (text <> rest)
  substitute (variable name ∷ parts) =
      read_env name >>= λ text. substitute parts >>= λ rest. ok (text <> rest)

  unfoldable pub resolve_secret_value : String → Outcome String
  unfolding behind read_env read_file_secret read_command_secret read_aws_secret read_vault_secret
      substitute
  resolve_secret_value value = elim (behind "env:" value) [
    | some name ↦ read_env name
    | none ↦ elim (behind "file:" value) [
      | some rest ↦ read_file_secret value rest
      | none ↦ elim (behind "op://" value) [
        | some _ ↦ read_command_secret ("op" ∷ "read" ∷ value ∷ []) "1Password"
        | none ↦ elim (behind "aws-sm://" value) [
          | some reference ↦ read_aws_secret reference
          | none ↦ elim (behind "vault://" value) [
            | some reference ↦ read_vault_secret reference
            | none ↦ substitute (sources.env_parts value)
          ]
        ]
      ]
    ]
  ]

-- `ENV_REF_RE.findall`
abbrev variables : List EnvPart → List String
variables [] = []
variables (plain text ∷ parts) = variables parts
variables (variable name ∷ parts) = name ∷ variables parts

module _ (sources : SecretSources) where
  unfoldable pub referenced_env_vars : Option String → List String
  unfolding behind
  referenced_env_vars none = []
  referenced_env_vars (some value) =
      let refs = variables (sources.env_parts value) in
      if truthy value
      then refs ++ (elim (behind "env:" value) [ none ↦ [] | some name ↦ name ∷ [] ])
      else []

  -- `SECRET_SOURCE_PREFIXES`
  abbrev secret_source_prefixes : List (String × String)
  secret_source_prefixes =
      ("file:", "file") ∷ ("op://", "op") ∷ ("aws-sm://", "aws-sm") ∷ ("vault://", "vault") ∷ []

  abbrev sources_by_prefix : String → List (String × String) → List (String × String)
  sources_by_prefix value [] = []
  sources_by_prefix value ((prefix, kind) ∷ prefixes) =
      let rest = sources_by_prefix value prefixes in
      elim (behind prefix value) [ none ↦ rest | some _ ↦ (kind, value) ∷ rest ]

  unfoldable pub referenced_secret_sources : Option String → List (String × String)
  unfolding referenced_env_vars
  referenced_secret_sources none = []
  referenced_secret_sources (some value) =
      let named : List (String × String) =
        map (λ name. ("env", name)) (referenced_env_vars (some value)) in
      if truthy value then named ++ sources_by_prefix value secret_source_prefixes else []

  unfoldable pub secret_provider_available : String → Bool
  secret_provider_available kind =
      if kind == "env" || kind == "file"
      then true
      else if kind == "op"
      then sources.is_installed "op"
      else if kind == "aws-sm"
      then sources.is_installed "aws"
      else kind == "vault" && sources.is_installed "vault"
