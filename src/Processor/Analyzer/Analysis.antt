-- ===== src/Processor/Analyzer/Analysis.antt =====
-- `Analyzer.analyze` of `src/processor/analyzer.py`.
use mail_tester.Prelude.{
  ℕ, Bool, Option, none, some, List, [], ◌∷◌, ◌++◌, take, Text, codes, null, if◌then◌else◌,
}
use mail_tester.Config.{Config}
use mail_tester.Db.Documents.{Connection}
use mail_tester.Ingest.Message.{Message, headers}
use mail_tester.Processor.Score.{Deduction, Item, Report, Title}
use mail_tester.Processor.Score.Totals.{report}
use mail_tester.Processor.Dns.{Dns}
use mail_tester.Processor.Spf.{SpfCheck, SpfAnswer, check_spf}
use mail_tester.Processor.Dkim.{DkimCheck, Verification, check_dkim}
use mail_tester.Processor.Dmarc.{DmarcCheck, Tags, get_tag, check_dmarc}
use mail_tester.Processor.Rdns.{RdnsCheck, check_rdns}
use mail_tester.Processor.Blacklists.Ips.{IpReport, check_blacklists}
use mail_tester.Processor.Blacklists.Domains.{DomainReport, check_domain_blacklists}
use mail_tester.Processor.Sender.{is_public_ip, get_sender_ip}
use mail_tester.Processor.Content.Parser.{Event}
use mail_tester.Processor.Content.Inspect.{Content, inspect_content}
use mail_tester.Worker.Spamd.{SpamCheck, Reply, spamd_check}
use mail_tester.Worker.Tasks.{Services, unless}
use mail_tester.Processor.Analyzer.Authentication.{
  spf_deductions, dkim_deductions, dmarc_deductions,
}
use mail_tester.Processor.Analyzer.Headers.{
  HeaderCheck, decode_headers, lacks, check_headers, header_deductions, envelope_deductions,
}
use mail_tester.Processor.Analyzer.Delivery.{
  HeloCheck, RdnsStatus, check_helo, rdns_status, tls_deductions, helo_of, tls_of, helo_deductions,
  rdns_deductions, helo_rdns_deductions, blacklist_deductions,
}
use mail_tester.Processor.Analyzer.Body.{
  body_deductions, unsubscribe_deductions, subject_deductions, domain_deductions, spam_deductions,
}

-- The packages and the services that an analysis asks.
pub record Tools : Type 0 where
  pub dns : Dns
  -- `spf.check2`, `dkim.verify`
  pub check2 : Text → Text → Text → SpfAnswer
  pub verify : Text → Verification
  -- `ipaddress`, `email.header`, `html.parser`, `urllib.parse`
  pub is_global : Text → Option Bool
  pub decode_header : Text → Option Text
  pub html_events : Text → List Event
  pub hostname : Text → Option Text
  -- The orders in which the thread pools complete their jobs.
  pub ips_completed : List Text → List Text
  pub domains_completed : List (Text × Text) → List (Text × Text)
  -- `bytes.decode` that ignores errors, or replaces them, and the SpamAssassin daemon.
  pub decode_ignore : Text → Text
  pub decode_replace : Text → Text
  pub spamd : Text → Reply
  -- What `re` raises on the `Received` headers, of which one is no `str` if it has bytes that are not
  -- ASCII, what is raised by what `Analyzer.analyze` calls, and by `insert_one`.
  pub received_error : Message → Option Text
  pub analysis_error : Message → Text → Option Text
  pub insert_error : Text → Report → Option Text

pub record Mail : Type 0 where
  pub msg : Message
  pub domain : Text
  pub sender_ip : Option Text
  pub raw_email : Text
  pub connection : Option Connection
  pub envelope_from : Option Text

pub record Checks : Type 0 where
  pub spf : SpfCheck
  pub dkim : DkimCheck
  pub dmarc : DmarcCheck
  pub headers : HeaderCheck
  pub sender_ip : Option Text
  pub connection : Option Connection
  pub helo : HeloCheck
  -- Both are skipped without a public address.
  pub rdns : Option RdnsCheck
  pub rdns_status : RdnsStatus
  pub blacklists : Option IpReport
  pub content : Content
  pub domain_blacklists : DomainReport
  pub spamassassin : SpamCheck

pub record Meta : Type 0 where
  pub sender_domain : Text
  pub sender_ip : Option Text
  pub message_id : Option Text
  pub subject : Option Text
  pub from : Option Text
  pub to : Option Text
  pub date : Option Text
  pub helo : Option Text
  pub tls : Bool

pub record Summary : Type 0 where
  pub score : ℕ
  pub grade : Title
  pub top_issues : List Item

pub record Analysis : Type 0 where
  pub base : Report
  pub meta : Meta
  pub checks : Checks
  pub raw_email : Text
  pub summary : Summary

abbrev pub rdns_part : Option Text → Option Text → Option RdnsCheck → List Deduction
rdns_part helo none rdns = []
rdns_part helo (some ip) none = []
rdns_part helo (some ip) (some rdns) =
    rdns_deductions ip rdns ++ helo_rdns_deductions helo rdns.hostname

abbrev pub blacklist_part : Option IpReport → List Deduction
blacklist_part none = []
blacklist_part (some bl) = blacklist_deductions bl

module _ (T : Tools) (c : Config) where
  -- `sender_ip if sender_ip and is_public_ip(sender_ip) else None`
  abbrev if_public : Option Text → Option Text
  if_public none = none
  if_public (some ip) =
      if null ip then none else if is_public_ip T.is_global ip then some ip else none

  unfoldable pub public_ip : Mail → Option Text
  unfolding is_public_ip
  public_ip m = if_public m.sender_ip

  abbrev pub decoded : Mail → Tags
  decoded m = decode_headers T.decode_header (headers m.msg)

  abbrev if_given : {A : Type 0} → (Text → A) → Option Text → Option A
  if_given f none = none
  if_given f (some ip) = some (f ip)

  unfoldable pub run_checks : Mail → Checks
  unfolding public_ip decode_headers check_spf check_dkim check_dmarc check_headers check_rdns
      check_helo rdns_status check_blacklists inspect_content check_domain_blacklists spamd_check
      get_tag
  run_checks m =
      let ip = public_ip m in
      let spf = check_spf T.check2 T.dns m.domain ip m.envelope_from (helo_of m.connection) in
      let dkim = check_dkim T.verify T.dns m.domain m.raw_email in
      let rdns = if_given (check_rdns T.dns) ip in
      let content =
        inspect_content T.html_events T.hostname m.msg (get_tag (codes "Subject") (decoded m)) in
      record {
        spf = spf;
        dkim = dkim;
        dmarc = check_dmarc T.dns m.domain spf dkim;
        headers = check_headers (decoded m);
        sender_ip = m.sender_ip;
        connection = m.connection;
        helo = check_helo (helo_of m.connection) rdns;
        rdns = rdns;
        rdns_status = rdns_status rdns;
        blacklists = if_given (check_blacklists T.dns T.ips_completed c.dnsbl_max_lists) ip;
        content = content;
        domain_blacklists =
            check_domain_blacklists T.dns T.domains_completed c.uribl_max_domains
              (m.domain ∷ content.link_hosts);
        spamassassin = spamd_check T.decode_ignore T.spamd m.raw_email;
      }

  -- The part of the address of the sending server, which is empty without a public one.
  unfoldable pub address_deductions : Mail → Checks → List Deduction
  unfolding public_ip rdns_deductions helo_rdns_deductions blacklist_deductions
  address_deductions m k =
      rdns_part (helo_of m.connection) (public_ip m) k.rdns ++ blacklist_part k.blacklists

  -- All calls of `score.minus`, in order.
  unfoldable pub deductions : Mail → Checks → List Deduction
  unfolding public_ip spf_deductions dkim_deductions dmarc_deductions header_deductions
      envelope_deductions tls_deductions helo_deductions address_deductions body_deductions
      unsubscribe_deductions subject_deductions domain_deductions spam_deductions decode_headers
      lacks
  deductions m k =
      spf_deductions m.domain (public_ip m) k.spf
      ++ (dkim_deductions m.domain k.dkim
          ++ (dmarc_deductions m.domain k.dmarc
              ++ (header_deductions (decoded m)
                  ++ (envelope_deductions m.domain m.envelope_from
                      ++ (tls_deductions m.connection
                          ++ (helo_deductions (helo_of m.connection)
                              ++ (address_deductions m k
                                  ++ (body_deductions k.content
                                      ++ (unsubscribe_deductions k.content
                                            (lacks (codes "List-Unsubscribe") (decoded m))
                                          ++ (subject_deductions k.content
                                              ++ (domain_deductions k.domain_blacklists
                                                  ++ spam_deductions c.spam_penalty_cap
                                                      k.spamassassin)))))))))))

  unfoldable pub meta_of : Mail → Meta
  unfolding decode_headers get_tag
  meta_of m = record {
    sender_domain = m.domain;
    sender_ip = m.sender_ip;
    message_id = get_tag (codes "Message-ID") (decoded m);
    subject = get_tag (codes "Subject") (decoded m);
    from = get_tag (codes "From") (decoded m);
    to = get_tag (codes "To") (decoded m);
    date = get_tag (codes "Date") (decoded m);
    helo = helo_of m.connection;
    tls = tls_of m.connection;
  }

  unfoldable pub analyze : Mail → Analysis
  unfolding run_checks deductions meta_of
  analyze m =
      let checks = run_checks m in
      let base = report (deductions m checks) in
      record {
        base = base;
        meta = meta_of m;
        checks = checks;
        raw_email = T.decode_replace m.raw_email;
        summary = record {
          score = base.score;
          grade = base.title;
          top_issues = take 3 base.issues;
        };
      }

  -- The services of the worker, with this analyzer. What the task stores of an analysis here is its
  -- report.
  unfoldable pub worker_services : (Text → Message) → (Text → Text) → Services
  unfolding analyze get_sender_ip
  worker_services parse parse_address = record {
    parse = parse;
    parse_address = parse_address;
    sender_ip_of = λ msg. unless (T.received_error msg) (get_sender_ip T.is_global msg);
    analyze = λ msg domain sender_ip raw connection mail_from.
        unless (T.analysis_error msg raw)
          (analyze (record {
            msg = msg;
            domain = domain;
            sender_ip = sender_ip;
            raw_email = raw;
            connection = connection;
            envelope_from = some mail_from;
          })).base;
    insert_error = T.insert_error;
  }
