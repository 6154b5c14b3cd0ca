-- ===== src/Registry.antt =====
-- internal/registry: image references, registry requests and credentials. Here are the types that
-- JSON documents are read into.
pub mod Resolver
pub mod Challenge
pub mod Digest
pub mod Auth
pub mod Reads
use openwatch.Base.Text.{Text}
use openwatch.Base.Assoc.{Assoc}

pub record PlatformDescriptor : Type 0 where
  pub digest : Text
  pub media_type : Text
  pub architecture : Text
  pub os : Text
  pub variant : Text

pub record DockerConfigAuth : Type 0 where
  pub auth : Text
  pub username : Text
  pub password : Text

pub record DockerConfig : Type 0 where
  pub auths : Assoc DockerConfigAuth
  pub creds_store : Text
  pub cred_helpers : Assoc Text
