-- ===== src/Shell/Network.antt =====
-- Which commands reach the network, and the prefix of a command that its approval is for:
-- `_tokens_request_network_access` and `_tokens_network_command_prefix`.
use just_another_coding_agen.Base.{
  String, Bool, true, false, ◌&&◌, Option, none, some, List, [], ◌∷◌, ◌==◌, any, contains, is_some,
  if◌then◌else◌,
}
use just_another_coding_agen.Base.Dict
use just_another_coding_agen.Base.Dict.{Dict}
use just_another_coding_agen.Shell.Tokens.{token_looks_like_network_target}

abbrev pub network_commands : List String
network_commands =
    "curl" ∷ "dig" ∷ "gh" ∷ "host" ∷ "nc" ∷ "nslookup" ∷ "ping" ∷ "scp" ∷ "sftp" ∷ "ssh" ∷ "telnet"
    ∷ "wget" ∷ []

abbrev no_network_catch_all_commands : List String
no_network_catch_all_commands =
    "awk" ∷ "cat" ∷ "code" ∷ "cut" ∷ "echo" ∷ "egrep" ∷ "fgrep" ∷ "grep" ∷ "head" ∷ "jq" ∷ "less"
    ∷ "more" ∷ "nano" ∷ "rg" ∷ "ripgrep" ∷ "sed" ∷ "sort" ∷ "subl" ∷ "tail" ∷ "tee" ∷ "tr" ∷ "uniq"
    ∷ "vim" ∷ "wc" ∷ "yq" ∷ []

abbrev network_package_manager_subcommands : Dict (List String)
network_package_manager_subcommands =
    ("npm", "install" ∷ "i" ∷ "ci" ∷ "add" ∷ "update" ∷ "publish" ∷ [])
    ∷ ("pnpm", "install" ∷ "add" ∷ "update" ∷ "up" ∷ "create" ∷ "dlx" ∷ [])
    ∷ ("yarn", "install" ∷ "add" ∷ "up" ∷ "upgrade" ∷ "dlx" ∷ "create" ∷ [])
    ∷ ("bun", "install" ∷ "add" ∷ "update" ∷ "x" ∷ "create" ∷ [])
    ∷ ("pip", "install" ∷ "download" ∷ "wheel" ∷ [])
    ∷ ("pip3", "install" ∷ "download" ∷ "wheel" ∷ [])
    ∷ ("poetry", "install" ∷ "add" ∷ "update" ∷ "publish" ∷ [])
    ∷ ("cargo", "install" ∷ "search" ∷ "publish" ∷ "add" ∷ [])
    ∷ ("go", "get" ∷ [])
    ∷ ("uv", "sync" ∷ "lock" ∷ "add" ∷ "remove" ∷ "publish" ∷ "runx" ∷ "x" ∷ [])
    ∷ []

abbrev git_network_subcommands : List String
git_network_subcommands = "clone" ∷ "fetch" ∷ "ls-remote" ∷ "pull" ∷ "push" ∷ []

-- `table.get(executable)`, kept shut.
unfoldable pub subcommands_of : String → Option (List String)
unfolding Dict.get
subcommands_of executable = Dict.get executable network_package_manager_subcommands

unfoldable pub is_git : String → Bool
is_git executable = executable == "git"

unfoldable pub is_network_command : String → Bool
is_network_command executable = contains executable network_commands

unfoldable pub is_git_subcommand : String → Bool
is_git_subcommand token = contains token git_network_subcommands

abbrev is_in : String → Option (List String) → Bool
is_in token none = false
is_in token (some table) = contains token table

-- `_python_command_requests_network`
python_command_requests_network : List String → Bool
unfolding subcommands_of
python_command_requests_network (option ∷ manager ∷ subcommand ∷ rest) =
    option == "-m" && is_in subcommand (subcommands_of manager)
python_command_requests_network _ = false

-- The branches that do not look at the second token.
other_command : String → List String → Bool
unfolding python_command_requests_network token_looks_like_network_target
other_command executable rest =
    if contains executable ("python" ∷ "python3" ∷ "python3.12" ∷ [])
    then python_command_requests_network rest
    else if contains executable no_network_catch_all_commands
    then false
    else any token_looks_like_network_target rest

unfoldable pub tokens_request_network_access : List String → Bool
unfolding other_command
tokens_request_network_access [] = false
tokens_request_network_access (executable ∷ []) =
    if is_network_command executable then true else other_command executable []
tokens_request_network_access (executable ∷ second ∷ rest) =
    if is_network_command executable
    then true
    else if is_git executable
    then is_git_subcommand second
    else if is_some (subcommands_of executable)
    then is_in second (subcommands_of executable)
    else other_command executable (second ∷ rest)

unfoldable pub tokens_network_command_prefix : List String → List String
tokens_network_command_prefix [] = []
tokens_network_command_prefix (executable ∷ []) =
    if is_network_command executable then executable ∷ [] else []
tokens_network_command_prefix (executable ∷ second ∷ rest) =
    if is_network_command executable
    then executable ∷ []
    else if is_git executable && is_git_subcommand second
    then "git" ∷ second ∷ []
    else if is_some (subcommands_of executable) && is_in second (subcommands_of executable)
    then executable ∷ second ∷ []
    else []
